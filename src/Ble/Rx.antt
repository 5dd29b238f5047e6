-- ===== src/Ble/Rx.antt =====
-- components/ble_service/src/ble_service.c: a write of the client from its bytes to its effect, and the
-- ends of what it started.
use esp32_s3_hot_tub_base.Base.{
  ℕ, Bool, true, false, ◌||◌, List, [], ◌∷◌, Option, none, some, length, take, leb, if◌then◌else◌,
}
use esp32_s3_hot_tub_base.Esp.{EspErr, ok, timeout, is_ok}
use esp32_s3_hot_tub_base.HotTub.State.{c_string}
use esp32_s3_hot_tub_base.Wifi.State.{
  ModeState, Wifi, sta_connecting, sta_is_connected, in_ap_fallback, disconnected,
}
use esp32_s3_hot_tub_base.Ble.Text.{
  ota_update_text, status_text, status_get_text, get_status_text, status_full_text,
  status_compact_text, mode_full_text, mode_compact_text, debug_ota_url, trim_in_place,
  str_equals_ignore_case,
}
use esp32_s3_hot_tub_base.Ble.Commands.{
  Ble, Security, connection_is_secure, att_ok, unlikely, insufficient_authen, invalid_value_len,
  system_status, no_id, Message, BleRun, Handled, unhandled, told_ota, queue_ota_request,
  release_ota_request, handle_rx_json_request,
}

-- The message that `ble_service_queue_debug_github_ota` makes.
abbrev pub debug_request : Message
debug_request = record {
  kind = none;
  cmd = none;
  id = no_id;
  url = some debug_ota_url;
  manifest_url = none;
  storage_url = none;
  ssid = none;
  password = none;
}

-- The text command "ota-update", with `ble_service_queue_debug_github_ota`.
unfoldable pub run_ota_update : BleRun → Option Security → Ble → Wifi → Handled
unfolding queue_ota_request
run_ota_update r none b w = unhandled unlikely b w
run_ota_update r (some s) b w =
    let queued = told_ota w (queue_ota_request r false debug_request b) in
    if connection_is_secure (some s)
    then (if r.debug_memory then queued else unhandled unlikely b w)
    else unhandled insufficient_authen b w

-- The status is sent in a mode, which stays.
abbrev pub in_mode : Bool → Ble → Wifi → Handled
in_mode compact b w = record {
  ble = record b { status_compact_mode = compact };
  wifi = w;
  notices = system_status compact ∷ [];
  att = att_ok;
}

-- The text commands of `ble_service_handle_rx_command`.
unfoldable pub run_text_command : BleRun → Option Security → List ℕ → Ble → Wifi → Handled
unfolding run_ota_update str_equals_ignore_case
run_text_command r conn cmd b w =
    let update = run_ota_update r conn b w in
    let is : List ℕ → Bool = str_equals_ignore_case cmd in
    if is ota_update_text
    then update
    else (if is status_text || is status_get_text || is get_status_text
        then in_mode b.status_compact_mode b w
        else (if is status_full_text || is mode_full_text
            then in_mode false b w
            else (if is status_compact_text || is mode_compact_text
                then in_mode true b w
                else unhandled att_ok b w)))

-- `ble_service_handle_rx_command`, of a text without its terminator and of what cJSON makes of it.
unfoldable pub handle_rx_command :
    BleRun → (List ℕ → Option Message) → Option Security → List ℕ → Ble → Wifi → Handled
unfolding handle_rx_json_request run_text_command trim_in_place
handle_rx_command r parse conn payload b w =
    let text = run_text_command r conn (trim_in_place (take 255 payload)) b w in
    elim (handle_rx_json_request r conn (parse payload) b w) [ some h ↦ h | none ↦ text ]

-- An access of the client to the characteristic: a write of bytes, if they can be copied, or another.
pub data Access : Type 0 where
  write_chr : List ℕ → Bool → Access
  other_access : Access

-- `rx_access_cb`
unfoldable pub rx_access_cb :
    BleRun → (List ℕ → Option Message) → Option Security → Access → Ble → Wifi → Handled
unfolding handle_rx_command c_string
rx_access_cb r parse conn other_access b w = unhandled unlikely b w
rx_access_cb r parse conn (write_chr bytes copied) b w =
    let h = handle_rx_command r parse conn (c_string bytes) b w in
    if leb 256 (length bytes)
    then unhandled invalid_value_len b w
    else (if copied then h else unhandled unlikely b w)

-- `wifi_mode_to_string`, as the texts "STA", "AP", "STA_CONNECTING" and "DISCONNECTED".
pub data ModeText : Type 0 where
  sta_text ap_text sta_connecting_text disconnected_text : ModeText

abbrev pub wifi_mode_to_string : ModeState → ModeText
wifi_mode_to_string sta_is_connected = sta_text
wifi_mode_to_string in_ap_fallback = ap_text
wifi_mode_to_string sta_connecting = sta_connecting_text
wifi_mode_to_string disconnected = disconnected_text

-- What `ble_service_on_wifi_provision_result` tells the client.
pub data Outcome : Type 0 where
  connected connection_failed credentials_not_applied : Outcome

abbrev pub on_wifi_provision_result : EspErr → Outcome
on_wifi_provision_result ok = connected
on_wifi_provision_result timeout = connection_failed
on_wifi_provision_result _ = credentials_not_applied

-- The end of `ble_service_ota_update_task`, by the result of the update: whether it is told as
-- completed, and the state.
unfoldable pub finish_ota_update : EspErr → Ble → Bool × Ble
unfolding release_ota_request
finish_ota_update err b = (is_ok err, release_ota_request b)
