-- ===== src/Ble/Commands.antt =====
-- components/ble_service/src/ble_service.c: the commands that a BLE client writes. What cJSON makes of
-- a text, the memory, the tasks and the connection are arguments.
use esp32_s3_hot_tub_base.Base.{
  ℕ, Bool, true, false, not, ◌&&◌, ◌||◌, List, [], ◌∷◌, Option, none, some, length, ltb,
  if◌then◌else◌,
}
use esp32_s3_hot_tub_base.Esp.{EspErr, ok, invalid_state}
use esp32_s3_hot_tub_base.HotTub.State.{c_string}
use esp32_s3_hot_tub_base.Storage.Credentials.{field_of, ssid_storage_size, password_storage_size}
use esp32_s3_hot_tub_base.WebServer.Files.{same_bytes}
use esp32_s3_hot_tub_base.Ota.Requests.{is_bad_url, is_bad_storage}
use esp32_s3_hot_tub_base.Wifi.State.{Credentials, Wifi}
use esp32_s3_hot_tub_base.Wifi.Events.{wifi_provision}
use esp32_s3_hot_tub_base.Ble.Text.{
  req_text, status_command, github_command, manifest_command, credentials_command,
}

-- `s_status_compact_mode`, `s_ble_ota_request_pending`
pub record Ble : Type 0 where
  pub status_compact_mode : Bool
  pub ota_request_pending : Bool

-- What the connection has, if it is found.
pub record Security : Type 0 where
  pub encrypted : Bool
  pub authenticated : Bool
  pub bonded : Bool

-- `ble_service_connection_is_secure`
abbrev pub connection_is_secure : Option Security → Bool
connection_is_secure none = false
connection_is_secure (some s) = s.encrypted && s.authenticated && s.bonded

pub data AttError : Type 0 where
  att_ok unlikely insufficient_authen invalid_value_len : AttError

-- The answers of requests, and what is sent to the client.
pub data Answer : Type 0 where
  accepted invalid_request internal_error is_busy_now task_start_failed : Answer
  invalid_credentials : Answer

pub data Notice : Type 0 where
  system_status : Bool → Notice
  ota_result : ℕ → Answer → Notice
  wifi_result : ℕ → Answer → Notice

-- The member "id": missing, a number that is no `uint32_t` or no number, or a `uint32_t`.
pub data IdMember : Type 0 where
  no_id bad_id : IdMember
  good_id : ℕ → IdMember

-- A message that cJSON parsed: the strings of its members, and a member of "params" that is there with
-- its string, if it is one.
pub record Message : Type 0 where
  pub kind : Option (List ℕ)
  pub cmd : Option (List ℕ)
  pub id : IdMember
  pub url : Option (List ℕ)
  pub manifest_url : Option (List ℕ)
  pub storage_url : Option (Option (List ℕ))
  pub ssid : Option (List ℕ)
  pub password : Option (List ℕ)

-- What the calls of a command return: the memory for a request, for its texts and for the debug
-- request, whether an update is in progress, whether the task starts, and the room in the queue of
-- the Wi-Fi manager.
pub record BleRun : Type 0 where
  pub request_memory : Bool
  pub text_memory : Bool
  pub debug_memory : Bool
  pub update_in_progress : Bool
  pub task : Bool
  pub room : Bool

-- The state after a command, with what is sent and the result.
pub record Handled : Type 0 where
  pub ble : Ble
  pub wifi : Wifi
  pub notices : List Notice
  pub att : AttError

-- `ble_service_reserve_ota_request`
unfoldable pub reserve_ota_request : Bool → Ble → Bool × Ble
reserve_ota_request in_progress b =
    if not b.ota_request_pending && not in_progress
    then (true, record b { ota_request_pending = true })
    else (false, b)

-- `ble_service_release_ota_request`
unfoldable pub release_ota_request : Ble → Ble
release_ota_request b = record b { ota_request_pending = false }

-- The end of `ble_service_queue_ota_request`, for a request whose fields are valid.
unfoldable pub start_ota_request : BleRun → ℕ → Ble → Ble × Answer
unfolding reserve_ota_request release_ota_request
start_ota_request r request_id b =
    let (reserved, b') = reserve_ota_request r.update_in_progress b in
    if not (r.request_memory && r.text_memory)
    then (b, internal_error)
    else (if not reserved
        then (b, is_busy_now)
        else (if r.task then (b', accepted) else (release_ota_request b', task_start_failed)))

-- `ble_service_queue_ota_request`, for a manifest or not: its answer, with the id that it has.
unfoldable pub queue_ota_request : BleRun → Bool → Message → Ble → Ble × ℕ × Answer
unfolding start_ota_request
queue_ota_request r is_manifest msg b =
    let request_id : ℕ = elim msg.id [ no_id ↦ 0 | bad_id ↦ 0 | good_id n ↦ n ] in
    let bad : Bool = elim msg.id [ no_id ↦ false | bad_id ↦ true | good_id n ↦ false ] in
    let url = if is_manifest then msg.manifest_url else msg.url in
    let storage_url = if is_manifest then none else msg.storage_url in
    let (b', answer) = start_ota_request r request_id b in
    if bad || is_bad_url url || is_bad_storage storage_url
    then (b, request_id, invalid_request)
    else (b', request_id, answer)

-- The credentials of a message, in the two arrays.
unfoldable pub credentials_of : Message → Option Credentials
unfolding field_of c_string
credentials_of msg =
    let fitting : Option Credentials = elim msg.ssid [
      | none ↦ none
      | some s ↦ elim msg.password [
        | none ↦ none
        | some p ↦
            if ltb 0 (length s)
              && ltb (length s) ssid_storage_size
              && ltb (length p) password_storage_size
            then some (record {
              ssid = field_of ssid_storage_size s;
              password = field_of password_storage_size p;
            })
            else none
      ]
    ] in
    elim msg.id [ no_id ↦ fitting | bad_id ↦ none | good_id n ↦ fitting ]

-- What the client is told of the result of `wifi_manager_provision`.
abbrev pub provision_answer : EspErr → Answer
provision_answer ok = accepted
provision_answer invalid_state = is_busy_now
provision_answer _ = invalid_credentials

-- The part of `ble_service_handle_rx_json_request` for new credentials.
unfoldable pub set_credentials : BleRun → Message → Ble → Wifi → Handled
unfolding credentials_of wifi_provision
set_credentials r msg b w =
    let request_id : ℕ = elim msg.id [ no_id ↦ 0 | bad_id ↦ 0 | good_id n ↦ n ] in
    elim (credentials_of msg) [
      | none ↦ record {
        ble = b;
        wifi = w;
        notices = wifi_result 0 invalid_request ∷ [];
        att = att_ok;
      }
      | some c ↦
          let (w', err) = wifi_provision r.room (some c) request_id w in
          record {
            ble = b;
            wifi = w';
            notices = wifi_result request_id (provision_answer err) ∷ [];
            att = att_ok;
          }
    ]

abbrev pub unhandled : AttError → Ble → Wifi → Handled
unhandled att b w = record { ble = b; wifi = w; notices = []; att = att }

abbrev pub told_ota : Wifi → Ble × ℕ × Answer → Handled
told_ota w (b, request_id, answer) = record {
  ble = b;
  wifi = w;
  notices = ota_result request_id answer ∷ [];
  att = att_ok;
}

-- The command of a request, if the message is one.
abbrev pub request_command : Message → Option (List ℕ)
request_command msg = elim msg.kind [
  | none ↦ none
  | some k ↦ if same_bytes k req_text then msg.cmd else none
]

-- The commands of `ble_service_handle_rx_json_request`: none is a command that it leaves.
unfoldable pub run_request :
    BleRun → Option Security → Message → List ℕ → Ble → Wifi → Option Handled
unfolding queue_ota_request set_credentials same_bytes
run_request r conn msg cmd b w =
    let refused = some (unhandled insufficient_authen b w) in
    let github = same_bytes cmd github_command in
    let manifest = same_bytes cmd manifest_command in
    let asked : Handled = record {
      ble = b;
      wifi = w;
      notices = system_status false ∷ [];
      att = att_ok;
    } in
    let queued = told_ota w (queue_ota_request r manifest msg b) in
    let set = set_credentials r msg b w in
    if same_bytes cmd status_command
    then some asked
    else (if github || manifest
        then (if connection_is_secure conn then some queued else refused)
        else (if same_bytes cmd credentials_command
            then (if connection_is_secure conn then some set else refused)
            else none))

-- `ble_service_handle_rx_json_request`, of what cJSON made of the text.
unfoldable pub handle_rx_json_request :
    BleRun → Option Security → Option Message → Ble → Wifi → Option Handled
unfolding run_request same_bytes
handle_rx_json_request r conn none b w = none
handle_rx_json_request r conn (some msg) b w = elim (request_command msg) [
  | none ↦ none
  | some cmd ↦ run_request r conn msg cmd b w
]
