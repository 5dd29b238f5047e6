-- ===== src/Wifi/Trial.antt =====
-- components/wifi_manager/src/wifi_manager.c: the trial of new credentials with its rollback, and the
-- retry of the saved network from the recovery access point.
use esp32_s3_hot_tub_base.Base.{
  ℕ, zero, suc, Bool, true, false, not, ◌||◌, List, [], ◌∷◌, Option, none, some, if◌then◌else◌,
}
use esp32_s3_hot_tub_base.Esp.{EspErr, ok, timeout, is_ok}
use esp32_s3_hot_tub_base.Wifi.State.{
  Credentials, is_given, or_zeros, Wifi, sta_connecting, disconnected, ssid_of,
  publish_network_status, sta_down,
}
use esp32_s3_hot_tub_base.Wifi.Events.{schedule_sta_attempt, Act, run_act, run_acts}
use esp32_s3_hot_tub_base.Wifi.Attempts.{publish_ap_fallback_status}

-- `xEventGroupClearBits` of both bits.
abbrev pub clear_bits : Wifi → Wifi
clear_bits w = record w { got_ip_bit = false; disconnected_bit = false }

-- `xEventGroupWaitBits`: what happens until a bit is set or the wait times out; what comes after
-- the bit belongs to the next wait.
unfoldable pub wait_bits : List Act → Wifi → Wifi
unfolding run_act
wait_bits [] w = w
wait_bits (a ∷ acts) w =
    let rest = wait_bits acts (run_act a w) in
    if w.got_ip_bit || w.disconnected_bit then w else rest

-- `wait_for_candidate_connection`, of attempts that are left, by what happens in the wait of each.
-- A failure of `esp_wifi_connect` is only logged.
unfoldable pub wait_for_candidate_connection : ℕ → (ℕ → List Act) → Wifi → EspErr × Wifi
unfolding wait_bits
wait_for_candidate_connection zero during w = (timeout, w)
wait_for_candidate_connection (suc n) during w =
    let w' = wait_bits (during n) w in
    let rest = wait_for_candidate_connection n during (clear_bits w') in
    if w'.got_ip_bit then (ok, clear_bits w') else rest

-- What the calls of a trial return, and what happens meanwhile: before the first wait, in the
-- waits, in those after a lost link, and before the last critical section.
pub record TrialRun : Type 0 where
  pub stop : EspErr
  pub set_mode : EspErr
  pub set_config : EspErr
  pub start : EspErr
  pub sta_mode : EspErr
  pub ap_info : EspErr
  pub early : List Act
  pub waits : ℕ → List Act
  pub again : ℕ → List Act
  pub late : List Act

-- What the calls of a rollback return, and what happens before its first critical section, before
-- the second, and before it is finished.
pub record RollbackRun : Type 0 where
  pub set_mode : EspErr
  pub set_config : EspErr
  pub start : EspErr
  pub room : Bool
  pub before : List Act
  pub between : List Act
  pub gap : List Act
  pub ap_ip : Option (List ℕ)

-- `err == ESP_OK ? other : err`
abbrev pub first_error : EspErr → EspErr → EspErr
first_error err later_err = if is_ok err then later_err else err

-- The first part of `restore_previous_configuration`: back to the station with its credentials. The
-- failure of `esp_wifi_stop` is only logged. What happens in the gap comes after the flag of the
-- provisioning was cleared.
unfoldable pub restore_sta : RollbackRun → Credentials → Wifi → EspErr × Wifi
unfolding publish_network_status schedule_sta_attempt run_acts
restore_sta r previous w0 =
    let w = run_acts r.before w0 in
    let restored = record w {
      sta_enabled = true;
      ap_enabled = false;
      active_credentials = previous;
      active_credentials_valid = true;
      sta_ssid = ssid_of previous;
      provisioning_active = true;
      ap_fallback_active = false;
      ap_fallback_pending = false;
      sta_connect_attempts = 0;
      sta_attempt_pending = false;
    } in
    let freed = record (run_acts r.between restored) { provisioning_active = false } in
    let published = publish_network_status sta_connecting previous.ssid [] freed in
    (
      first_error (first_error r.set_mode r.set_config) r.start,
      run_acts r.gap (schedule_sta_attempt r.room published),
    )

-- The second part: back to the recovery access point.
unfoldable pub restore_ap : RollbackRun → Option Credentials → Wifi → EspErr × Wifi
unfolding publish_network_status publish_ap_fallback_status run_acts
restore_ap r previous w0 =
    let w = run_acts r.before w0 in
    let restored = record w {
      sta_enabled = false;
      ap_enabled = true;
      ap_fallback_active = true;
      ap_fallback_pending = false;
      sta_connect_attempts = 0;
      sta_attempt_pending = false;
      active_credentials = or_zeros previous;
      active_credentials_valid = is_given previous;
      sta_ssid = ssid_of (or_zeros previous);
      provisioning_active = true;
      status = sta_down w.status;
    } in
    let freed = record (run_acts r.between restored) { provisioning_active = false } in
    let err = first_error r.set_mode r.start in
    (
      err,
      run_acts r.gap (
          if is_ok err
          then publish_ap_fallback_status r.ap_ip freed
          else publish_network_status disconnected [] [] freed),
    )

-- `restore_previous_configuration`, of the previous credentials if there were any.
unfoldable pub restore_previous_configuration :
    RollbackRun → Option Credentials → Bool → Wifi → EspErr × Wifi
unfolding restore_sta restore_ap
restore_previous_configuration r none restore_ap_fallback w = restore_ap r none w
restore_previous_configuration r (some previous) restore_ap_fallback w =
    if restore_ap_fallback then restore_ap r (some previous) w else restore_sta r previous w

-- `finish_provisioning`, with the call of the callback.
unfoldable pub finish_provisioning : ℕ → EspErr → Wifi → Wifi × Option (ℕ × EspErr)
finish_provisioning request_id result w = (
  record w { provisioning_active = false },
  if w.callback_set then some (request_id, result) else none,
)

-- The credentials that are in use, if there are any.
abbrev pub in_use : Wifi → Option Credentials
in_use w = if w.active_credentials_valid then some w.active_credentials else none

-- Whether a trial returns to the recovery access point.
abbrev pub from_ap : Wifi → Bool
from_ap w = w.ap_fallback_active || not w.active_credentials_valid

-- The first critical section of `process_provision_request`, and the clearing of the bits.
unfoldable pub begin_trial : Credentials → Wifi → Wifi
begin_trial c w = clear_bits (record w {
  sta_enabled = true;
  ap_enabled = w.ap_fallback_active || not w.active_credentials_valid;
  sta_connect_attempts = 0;
  sta_attempt_pending = false;
  ap_fallback_pending = false;
  sta_ssid = ssid_of c;
})

-- The last one, of a trial that succeeded.
unfoldable pub commit_trial : Credentials → Wifi → Wifi
commit_trial c w = record w {
  active_credentials = c;
  active_credentials_valid = true;
  sta_enabled = true;
  ap_enabled = false;
  ap_fallback_active = false;
  ap_fallback_pending = false;
  sta_connect_attempts = 0;
  sta_attempt_pending = false;
  sta_ssid = ssid_of c;
}
