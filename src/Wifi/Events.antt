-- ===== src/Wifi/Events.antt =====
-- components/wifi_manager/src/wifi_manager.c: what runs beside the worker task - the event handler,
-- the retry timer and the requests of clients. Whether the work queue has room is an argument.
use esp32_s3_hot_tub_base.Base.{
  ℕ, Bool, true, false, not, ◌&&◌, List, [], ◌∷◌, Option, none, some, leb, if◌then◌else◌,
}
use esp32_s3_hot_tub_base.Esp.{EspErr, ok, no_mem, invalid_arg, invalid_state, invalid_size}
use esp32_s3_hot_tub_base.Wifi.State.{
  Credentials, Wifi, Work, connect_sta, enter_fallback, retry_sta, provision_work, sta_is_connected,
  sta_max_attempts, credentials_are_valid, update_ap_ip, publish_network_status, queue_send,
  request_ap_client_refresh, sta_down,
}

-- The work that an attempt asks for: the next attempt, or the recovery access point after the last.
unfoldable pub attempt_work : Wifi → Work
attempt_work w = if leb sta_max_attempts w.sta_connect_attempts then enter_fallback else connect_sta

-- `schedule_sta_attempt`
unfoldable pub schedule_sta_attempt : Bool → Wifi → Wifi
unfolding attempt_work queue_send
schedule_sta_attempt room w =
    let marked = record w {
      sta_attempt_pending = true;
      ap_fallback_pending = leb sta_max_attempts w.sta_connect_attempts;
    } in
    let (sent, w') = queue_send room (attempt_work w) marked in
    if w.sta_enabled
      && not w.ap_fallback_active
      && not w.ap_fallback_pending
      && not w.provisioning_active
      && not w.sta_attempt_pending
    then (if sent
        then w'
        else record w' { sta_attempt_pending = false; ap_fallback_pending = false })
    else w

-- The events that are handled; an address is what the event or the interface has. Any other event
-- is `other_event`.
pub data WifiEvent : Type 0 where
  ap_start : Option (List ℕ) → WifiEvent
  ap_sta_connected ap_sta_disconnected ap_stop sta_stop sta_start sta_disconnected : WifiEvent
  sta_got_ip : Option (List ℕ) → WifiEvent
  other_event : WifiEvent

-- `wifi_event_handler`
unfoldable pub wifi_event_handler : Bool → WifiEvent → Wifi → Wifi
unfolding update_ap_ip request_ap_client_refresh schedule_sta_attempt publish_network_status
wifi_event_handler room (ap_start ip) w =
    if w.ap_enabled
    then update_ap_ip ip (record w { status = record (w.status) { ap_started = true } })
    else w
wifi_event_handler room ap_sta_connected w = request_ap_client_refresh room w
wifi_event_handler room ap_sta_disconnected w = request_ap_client_refresh room w
wifi_event_handler room ap_stop w = record w {
  status = record (w.status) { ap_started = false; ap_ip = [] };
}
wifi_event_handler room sta_stop w = record w { status = sta_down w.status }
wifi_event_handler room sta_start w = schedule_sta_attempt room w
wifi_event_handler room sta_disconnected w =
    let down = record w { status = sta_down w.status } in
    if w.provisioning_active
    then (if w.events_created then record down { disconnected_bit = true } else down)
    else (if w.sta_enabled then schedule_sta_attempt room down else down)
wifi_event_handler room (sta_got_ip none) w = w
wifi_event_handler room (sta_got_ip (some ip)) w =
    let up = record w {
      status = record (w.status) { sta_connected = true; sta_ip = ip };
      sta_connect_attempts = 0;
      sta_attempt_pending = false;
      ap_fallback_pending = false;
    } in
    let w' = publish_network_status sta_is_connected w.sta_ssid ip up in
    if w.events_created then record w' { got_ip_bit = true } else w'
wifi_event_handler room other_event w = w

-- `wifi_manager_provision`
unfoldable pub wifi_provision : Bool → Option Credentials → ℕ → Wifi → Wifi × EspErr
unfolding credentials_are_valid queue_send
wifi_provision room none request_id w = (w, invalid_size)
wifi_provision room (some c) request_id w =
    let (sent, w') =
      queue_send room (provision_work c request_id) (record w { provisioning_active = true }) in
    if not (credentials_are_valid c)
    then (w, invalid_size)
    else (if not (w.started && w.queue_created)
        then (w, invalid_state)
        else (if w.provisioning_active
            then (w, invalid_state)
            else (if sent then (w', ok) else (record w' { provisioning_active = false }, no_mem))))

-- `wifi_manager_set_provision_result_callback`, by whether the callback is not NULL.
unfoldable pub set_provision_result_callback : Bool → Wifi → Wifi × EspErr
set_provision_result_callback given w =
    if given then (record w { callback_set = true }, ok) else (w, invalid_arg)

-- `fallback_retry_timer_cb`
unfoldable pub fallback_retry_timer_cb : Bool → Wifi → Wifi
unfolding queue_send
fallback_retry_timer_cb room w =
    let (sent, w') = queue_send room retry_sta (record w { fallback_retry_pending = true }) in
    if w.ap_fallback_active
      && w.active_credentials_valid
      && not w.provisioning_active
      && not w.fallback_retry_pending
    then (if sent then w' else record w' { fallback_retry_pending = false })
    else w

-- What other tasks do between two critical sections of the worker.
pub data Act : Type 0 where
  event : Bool → WifiEvent → Act
  request : Bool → Option Credentials → ℕ → Act
  set_callback : Bool → Act
  retry_timer : Bool → Act

unfoldable pub run_act : Act → Wifi → Wifi
unfolding wifi_event_handler wifi_provision set_provision_result_callback fallback_retry_timer_cb
run_act (event room e) w = wifi_event_handler room e w
run_act (request room c request_id) w = (wifi_provision room c request_id w).0
run_act (set_callback given) w = (set_provision_result_callback given w).0
run_act (retry_timer room) w = fallback_retry_timer_cb room w

unfoldable pub run_acts : List Act → Wifi → Wifi
unfolding run_act
run_acts [] w = w
run_acts (a ∷ acts) w = run_acts acts (run_act a w)
