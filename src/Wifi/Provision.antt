-- ===== src/Wifi/Provision.antt =====
-- components/wifi_manager/src/wifi_manager.c: a request for new credentials from its trial to its
-- report, with the storage that keeps them, and the retry of the saved network.
use esp32_s3_hot_tub_base.Base.{
  ℕ, Bool, true, false, not, ◌&&◌, List, [], Option, none, some, ltb, length, if◌then◌else◌,
}
use esp32_s3_hot_tub_base.Esp.{EspErr, ok, is_ok}
use esp32_s3_hot_tub_base.Storage.Driver.{NvsStore, Storage}
use esp32_s3_hot_tub_base.Storage.Credentials.{set_wifi_credentials}
use esp32_s3_hot_tub_base.Wifi.State.{
  Credentials, Client, Wifi, sta_connecting, provision_attempts, fallback_retry_attempts,
  publish_network_status, sta_down,
}
use esp32_s3_hot_tub_base.Wifi.Events.{Act, run_acts}
use esp32_s3_hot_tub_base.Wifi.Attempts.{publish_ap_fallback_status}
use esp32_s3_hot_tub_base.Wifi.Trial.{
  clear_bits, wait_for_candidate_connection, TrialRun, RollbackRun, first_error,
  restore_previous_configuration, finish_provisioning, in_use, from_ap, begin_trial, commit_trial,
}

-- The outcome of those calls, by the states after the early acts and after the two series of waits.
unfoldable pub link_outcome : TrialRun → Bool → Wifi → EspErr × Wifi → EspErr × Wifi → EspErr × Wifi
link_outcome t was_ap w (err, linked) (err', linked') =
    let setup = first_error t.stop (first_error t.set_mode (first_error t.set_config t.start)) in
    if not (is_ok setup)
    then (setup, w)
    else (if not (is_ok err)
        then (err, linked)
        else (if not was_ap
            then (ok, linked)
            else (if not (is_ok t.sta_mode)
                then (t.sta_mode, linked)
                else (if is_ok t.ap_info then (ok, linked) else (err', linked')))))

-- The calls of `process_provision_request` until the candidate has its link, for a trial that
-- started from the recovery access point or not.
unfoldable pub try_link : TrialRun → Bool → Credentials → Wifi → EspErr × Wifi
unfolding link_outcome wait_for_candidate_connection publish_network_status run_acts
try_link t was_ap c w0 =
    let w = run_acts t.early w0 in
    let published = publish_network_status sta_connecting c.ssid [] w in
    let (err, linked) = wait_for_candidate_connection provision_attempts t.waits published in
    let (err', linked') = wait_for_candidate_connection provision_attempts t.again linked in
    link_outcome t was_ap w (err, linked) (err', linked')

module _ (nvs : NvsStore) where
  -- `process_provision_request`
  unfoldable pub process_provision_request :
      TrialRun
      → RollbackRun
      → Credentials
      → ℕ
      → Wifi × Storage nvs
      → Wifi × Storage nvs × Option (ℕ × EspErr)
  unfolding try_link begin_trial commit_trial set_wifi_credentials restore_previous_configuration
      finish_provisioning run_acts
  process_provision_request t r c request_id (w0, s) =
      let (err, w) = try_link t (from_ap w0) c (begin_trial c w0) in
      let (err', s') = set_wifi_credentials nvs c.ssid c.password s in
      let (done, said) = finish_provisioning request_id ok (commit_trial c (run_acts t.late w)) in
      let (_, back) = restore_previous_configuration r (in_use w0) (from_ap w0) w in
      let (undone, said') = finish_provisioning request_id err back in
      let (undone', said'') = finish_provisioning request_id err' back in
      if is_ok err
      then (if is_ok err' then (done, s', said) else (undone', s', said''))
      else (undone, s, said')

-- What the calls of a retry return, and what happens before its waits, in them, and before its last
-- critical section.
pub record RetryRun : Type 0 where
  pub stations : Option (List Client)
  pub set_mode : EspErr
  pub set_config : EspErr
  pub sta_mode : EspErr
  pub early : List Act
  pub waits : ℕ → List Act
  pub late : List Act
  pub ap_ip : Option (List ℕ)

-- `esp_wifi_ap_get_sta_list(&clients) == ESP_OK && clients.num > 0`
abbrev pub has_stations : Option (List Client) → Bool
has_stations none = false
has_stations (some l) = ltb 0 (length l)

-- `process_fallback_retry`. The last calls of a retry that failed have no effect on its state.
unfoldable pub process_fallback_retry : RetryRun → Wifi → Wifi
unfolding wait_for_candidate_connection publish_ap_fallback_status run_acts
process_fallback_retry r w0 =
    let w = run_acts r.early (record w0 { provisioning_active = true }) in
    let setup = first_error r.set_mode r.set_config in
    let (waited, linked) =
      wait_for_candidate_connection fallback_retry_attempts r.waits (clear_bits w) in
    let err = first_error setup (first_error waited r.sta_mode) in
    let end = run_acts r.late (if is_ok setup then linked else w) in
    if not (w0.ap_fallback_active && w0.active_credentials_valid && not w0.provisioning_active)
    then record w0 { fallback_retry_pending = false }
    else (if has_stations r.stations
        then record w { provisioning_active = false; fallback_retry_pending = false }
        else (if is_ok err
            then record end {
              sta_enabled = true;
              ap_enabled = false;
              ap_fallback_active = false;
              ap_fallback_pending = false;
              sta_connect_attempts = 0;
              sta_attempt_pending = false;
              provisioning_active = false;
              fallback_retry_pending = false;
            }
            else publish_ap_fallback_status r.ap_ip (record end {
              status = sta_down end.status;
              provisioning_active = false;
              fallback_retry_pending = false;
            })))
