-- ===== src/Wifi/State.antt =====
-- components/wifi_manager/src/wifi_manager.c: the statics of the component, and the functions that
-- read or write them without a decision of their own.
use esp32_s3_hot_tub_base.Base.{
  ℕ, ◌-◌, ◌%◌, ◌^◌, Bool, true, false, ◌&&◌, List, [], ◌∷◌, ◌++◌, map, Option, none, some, length,
  take, replicate, ltb, if◌then◌else◌,
}
use esp32_s3_hot_tub_base.HotTub.State.{c_string}
use esp32_s3_hot_tub_base.Storage.Credentials.{ssid_storage_size, password_storage_size, strnlen}

-- `wifi_credentials_t`: the bytes of the two arrays, of 33 and 65.
pub record Credentials : Type 0 where
  pub ssid : List ℕ
  pub password : List ℕ

abbrev pub no_credentials : Credentials
no_credentials = record {
  ssid = replicate ssid_storage_size 0;
  password = replicate password_storage_size 0;
}

-- A pointer to credentials that may be NULL: whether it is not, and the credentials or zeros.
abbrev pub is_given : Option Credentials → Bool
is_given none = false
is_given (some c) = true

abbrev pub or_zeros : Option Credentials → Credentials
or_zeros none = no_credentials
or_zeros (some c) = c

-- `wifi_status_t`, its addresses as strings.
pub record WifiStatus : Type 0 where
  pub sta_connected : Bool
  pub ap_started : Bool
  pub sta_ip : List ℕ
  pub ap_ip : List ℕ

-- `wifi_mode_state_t`
pub data ModeState : Type 0 where
  disconnected sta_connecting sta_is_connected in_ap_fallback : ModeState

-- `wifi_client_info_t`, without the address that this component leaves empty.
pub record Client : Type 0 where
  pub mac_address : List ℕ
  pub rssi : ℕ

-- `wireless_status_t`
pub record Network : Type 0 where
  pub current_mode : ModeState
  pub active_ssid : List ℕ
  pub ip_address : List ℕ
  pub internet_connected : Bool
  pub connected_client_count : ℕ
  pub clients : List (Option Client)

-- `wifi_manager_work_t`
pub data Work : Type 0 where
  connect_sta enter_fallback retry_sta refresh_clients : Work
  provision_work : Credentials → ℕ → Work

-- The statics: `s_wifi_events` is whether the group exists and its two bits, `s_provision_queue`
-- whether the queue exists and the work that it holds.
pub record Wifi : Type 0 where
  pub started : Bool
  pub sta_enabled : Bool
  pub ap_enabled : Bool
  pub provisioning_active : Bool
  pub active_credentials_valid : Bool
  pub ap_fallback_active : Bool
  pub ap_fallback_pending : Bool
  pub sta_attempt_pending : Bool
  pub fallback_retry_pending : Bool
  pub sta_connect_attempts : ℕ
  pub queue_created : Bool
  pub queue : List Work
  pub events_created : Bool
  pub got_ip_bit : Bool
  pub disconnected_bit : Bool
  pub status : WifiStatus
  pub published_network : Network
  pub active_credentials : Credentials
  pub callback_set : Bool
  pub sta_ssid : List ℕ

-- `WIFI_STA_MAX_ATTEMPTS`, `WIFI_PROVISION_ATTEMPTS`, `WIFI_FALLBACK_RETRY_ATTEMPTS`,
-- `MAX_CLIENTS_COUNT`
abbrev pub sta_max_attempts : ℕ
sta_max_attempts = 5

abbrev pub provision_attempts : ℕ
provision_attempts = 5

abbrev pub fallback_retry_attempts : ℕ
fallback_retry_attempts = 2

abbrev pub max_clients_count : ℕ
max_clients_count = 8

-- `credentials_are_valid`, of a pointer that is not NULL.
unfoldable pub credentials_are_valid : Credentials → Bool
unfolding strnlen
credentials_are_valid c =
    let ssid_length = strnlen c.ssid ssid_storage_size in
    let password_length = strnlen c.password password_storage_size in
    ltb 0 ssid_length
    && ltb ssid_length ssid_storage_size
    && ltb password_length password_storage_size

-- `strlcpy(s_sta_ssid, ssid, sizeof(s_sta_ssid))`
abbrev pub ssid_of : Credentials → List ℕ
ssid_of c = take 32 (c_string c.ssid)

-- `update_ap_ip`, by the address that the interface has, if it has one.
unfoldable pub update_ap_ip : Option (List ℕ) → Wifi → Wifi
update_ap_ip none w = w
update_ap_ip (some ip) w = record w { status = record (w.status) { ap_ip = ip } }

abbrev pub is_sta_connected : ModeState → Bool
is_sta_connected sta_is_connected = true
is_sta_connected _ = false

-- `publish_network_status`, of strings that are not NULL.
unfoldable pub publish_network_status : ModeState → List ℕ → List ℕ → Wifi → Wifi
unfolding c_string
publish_network_status mode network_name ip w = record w {
  published_network = record (w.published_network) {
    current_mode = mode;
    internet_connected = is_sta_connected mode;
    active_ssid = take 32 (c_string network_name);
    ip_address = take 15 (c_string ip);
  };
}

-- `xQueueSend` without a wait, by whether the queue has room: whether it was sent, and the state.
unfoldable pub queue_send : Bool → Work → Wifi → Bool × Wifi
queue_send room work w =
    if w.queue_created && room
    then (true, record w { queue = w.queue ++ (work ∷ []) })
    else (false, w)

-- `request_ap_client_refresh`
unfoldable pub request_ap_client_refresh : Bool → Wifi → Wifi
unfolding queue_send
request_ap_client_refresh room w = (queue_send room refresh_clients w).1

-- `refresh_ap_clients`, by the list of stations, if it can be had.
unfoldable pub refresh_ap_clients : Option (List Client) → Wifi → Wifi
refresh_ap_clients none w = record w {
  published_network = record (w.published_network) {
    connected_client_count = 0;
    clients = replicate max_clients_count none;
  };
}
refresh_ap_clients (some stations) w =
    let kept = take max_clients_count stations in
    record w {
      published_network = record (w.published_network) {
        connected_client_count = length stations % 2 ^ 8;
        clients = map some kept ++ replicate (max_clients_count - length kept) none;
      };
    }

-- `s_status.sta_connected = false; s_status.sta_ip[0] = '\0'`
abbrev pub sta_down : WifiStatus → WifiStatus
sta_down s = record s { sta_connected = false; sta_ip = [] }

-- `wifi_manager_get_status`, of a pointer that is not NULL.
abbrev pub wifi_get_status : Wifi → WifiStatus
wifi_get_status w = w.status
