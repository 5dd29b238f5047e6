-- ===== src/Wifi/Attempts.antt =====
-- components/wifi_manager/src/wifi_manager.c: the worker's attempts to connect, and its switch to the
-- recovery access point. What the Wi-Fi driver returns is an argument.
use esp32_s3_hot_tub_base.Base.{
  ℕ, ◌+◌, Bool, true, false, not, ◌&&◌, List, [], ◌∷◌, Option, ltb, if◌then◌else◌,
}
use esp32_s3_hot_tub_base.Esp.{EspErr, is_ok}
use esp32_s3_hot_tub_base.Wifi.State.{
  Wifi, disconnected, sta_connecting, in_ap_fallback, sta_max_attempts, update_ap_ip,
  publish_network_status, sta_down,
}
use esp32_s3_hot_tub_base.Wifi.Events.{schedule_sta_attempt, Act, run_acts}

-- The characters of "HotTub-Controller".
abbrev pub ap_ssid : List ℕ
ap_ssid =
    b'H' ∷ b'o' ∷ b't' ∷ b'T' ∷ b'u' ∷ b'b' ∷ b'-' ∷ b'C' ∷ b'o' ∷ b'n' ∷ b't' ∷ b'r' ∷ b'o' ∷ b'l'
    ∷ b'l' ∷ b'e' ∷ b'r' ∷ []

-- `publish_ap_fallback_status`, by the address that the interface has.
unfoldable pub publish_ap_fallback_status : Option (List ℕ) → Wifi → Wifi
unfolding update_ap_ip publish_network_status
publish_ap_fallback_status ip w =
    let w' = update_ap_ip ip w in publish_network_status in_ap_fallback ap_ssid w'.status.ap_ip w'

-- The critical section of `enter_ap_fallback`.
unfoldable pub switch_to_fallback : Wifi → Wifi
switch_to_fallback w =
    let cleared_marks = record w { ap_fallback_pending = false; sta_attempt_pending = false } in
    if w.ap_fallback_pending && not w.ap_fallback_active
    then record cleared_marks {
      ap_fallback_active = true;
      sta_enabled = false;
      ap_enabled = true;
      status = sta_down w.status;
    }
    else cleared_marks

-- `enter_ap_fallback`, by what `esp_wifi_set_mode` and `esp_wifi_start` return, what happens before
-- the status is published, and the address of the access point. A failure of `esp_wifi_stop` is
-- only logged.
unfoldable pub enter_ap_fallback : EspErr → EspErr → List Act → Option (List ℕ) → Wifi → Wifi
unfolding switch_to_fallback publish_ap_fallback_status publish_network_status run_acts
enter_ap_fallback set_mode start acts ip w =
    let w' = run_acts acts (switch_to_fallback w) in
    if w.ap_fallback_pending && not w.ap_fallback_active
    then (if is_ok set_mode && is_ok start
        then publish_ap_fallback_status ip w'
        else publish_network_status disconnected [] [] w')
    else switch_to_fallback w

-- `should_connect` of `process_sta_attempt`
unfoldable pub should_connect : Wifi → Bool
should_connect w =
    w.sta_enabled
    && not w.ap_fallback_active
    && not w.provisioning_active
    && not w.status.sta_connected
    && ltb w.sta_connect_attempts sta_max_attempts

-- `process_sta_attempt` after its delay, by what `esp_wifi_connect` returns, what happens meanwhile,
-- and whether the work queue has room.
unfoldable pub process_sta_attempt : EspErr → List Act → Bool → Wifi → Wifi
unfolding should_connect publish_network_status schedule_sta_attempt run_acts
process_sta_attempt connect acts room w =
    let idle = record w { sta_attempt_pending = false } in
    let tried = record idle { sta_connect_attempts = w.sta_connect_attempts + 1 } in
    let w' = run_acts acts (publish_network_status sta_connecting w.sta_ssid [] tried) in
    if should_connect idle
    then (if is_ok connect then w' else schedule_sta_attempt room w')
    else idle
