-- ===== src/Wifi/Modes.antt =====
-- What the tasks beside the worker leave as it is, and what every step of the component keeps.
use esp32_s3_hot_tub_base.Base.{
  ◌≡◌, ◌≤◌, refl, ◌∙◌, inl, inr, Bool, true, false, List, [], ◌∷◌, ◌++◌, none, some, All, leb,
  Bool-cases, arith,
}
use esp32_s3_hot_tub_base.Wifi.State.{
  Wifi, Work, retry_sta, refresh_clients, provision_work, sta_max_attempts, credentials_are_valid,
  queue_send, update_ap_ip, publish_network_status, request_ap_client_refresh,
}
use esp32_s3_hot_tub_base.Wifi.Events.{
  attempt_work, schedule_sta_attempt, WifiEvent, wifi_event_handler, wifi_provision,
  set_provision_result_callback, fallback_retry_timer_cb, Act, event, request, set_callback,
  retry_timer, run_act, run_acts, sta_got_ip, ap_start, ap_sta_connected, ap_sta_disconnected,
  ap_stop, sta_stop, sta_start, sta_disconnected, other_event,
}

-- The mode and the credentials are the worker's alone.
abbrev pub Same : Wifi → Wifi → Type 0
Same w w' =
    (w'.sta_enabled ≡ w.sta_enabled)
    × (w'.ap_enabled ≡ w.ap_enabled)
    × (w'.ap_fallback_active ≡ w.ap_fallback_active)
    × (w'.active_credentials_valid ≡ w.active_credentials_valid)
    × (w'.active_credentials ≡ w.active_credentials)

abbrev pub IsValidWork : Work → Type 0
IsValidWork (provision_work c request_id) = credentials_are_valid c ≡ true
IsValidWork _ = Unit {0}

-- The counter of attempts is in range, and the requests that wait have credentials that fit.
abbrev pub Bounded : Wifi → Type 0
Bounded w = (w.sta_connect_attempts ≤ sta_max_attempts) × All IsValidWork w.queue

All-snoc {ℓ} :
    {A : Type 0} (P : A → Type ℓ) (xs : List A) (a : A) → All P xs → P a → All P (xs ++ (a ∷ []))
All-snoc P [] a h p = (p, tt)
All-snoc P (x ∷ xs) a h p = (h.0, All-snoc P xs a h.1 p)

queue_send-Same : (room : Bool) (item : Work) (w : Wifi) → Same w (queue_send room item w).1
unfolding queue_send
queue_send-Same room item w = ground arith

queue_send-Bounded :
    (room : Bool) (item : Work) (w : Wifi)
    → IsValidWork item
    → Bounded w
    → Bounded (queue_send room item w).1
unfolding queue_send
queue_send-Bounded room item w v b = ground (arith, All-snoc IsValidWork w.queue item b.1 v)

pub schedule_sta_attempt-Same : (room : Bool) (w : Wifi) → Same w (schedule_sta_attempt room w)
unfolding schedule_sta_attempt queue_send
schedule_sta_attempt-Same room w = ground arith

attempt_work-IsValidWork : (w : Wifi) → IsValidWork (attempt_work w)
unfolding attempt_work
attempt_work-IsValidWork w = elim (Bool-cases (leb sta_max_attempts w.sta_connect_attempts)) [
  | inl e ↦ rw e tt
  | inr e ↦ rw e tt
]

pub schedule_sta_attempt-Bounded :
    (room : Bool) (w : Wifi) → Bounded w → Bounded (schedule_sta_attempt room w)
unfolding schedule_sta_attempt queue_send
schedule_sta_attempt-Bounded room w b =
    ground (arith, All-snoc IsValidWork w.queue (attempt_work w) b.1 (attempt_work-IsValidWork w))

handler-Same : (room : Bool) (e : WifiEvent) (w : Wifi) → Same w (wifi_event_handler room e w)
unfolding wifi_event_handler update_ap_ip request_ap_client_refresh publish_network_status
handler-Same room (ap_start none) w = ground arith
handler-Same room (ap_start (some ip)) w = ground arith
handler-Same room ap_sta_connected w = queue_send-Same room refresh_clients w
handler-Same room ap_sta_disconnected w = queue_send-Same room refresh_clients w
handler-Same room ap_stop w = ground arith
handler-Same room sta_stop w = ground arith
handler-Same room sta_start w = schedule_sta_attempt-Same room w
handler-Same room sta_disconnected w = ground (
  arith,
  schedule_sta_attempt-Same room
      (record w { status = record (w.status) { sta_connected = false; sta_ip = [] } }),
)
handler-Same room (sta_got_ip none) w = ground arith
handler-Same room (sta_got_ip (some ip)) w = ground arith
handler-Same room other_event w = ground arith

handler-Bounded :
    (room : Bool) (e : WifiEvent) (w : Wifi) → Bounded w → Bounded (wifi_event_handler room e w)
unfolding wifi_event_handler update_ap_ip request_ap_client_refresh publish_network_status
handler-Bounded room (ap_start none) w b = ground arith
handler-Bounded room (ap_start (some ip)) w b = ground arith
handler-Bounded room ap_sta_connected w b = queue_send-Bounded room refresh_clients w tt b
handler-Bounded room ap_sta_disconnected w b = queue_send-Bounded room refresh_clients w tt b
handler-Bounded room ap_stop w b = b
handler-Bounded room sta_stop w b = b
handler-Bounded room sta_start w b = schedule_sta_attempt-Bounded room w b
handler-Bounded room sta_disconnected w b = ground (
  arith,
  schedule_sta_attempt-Bounded room
      (record w { status = record (w.status) { sta_connected = false; sta_ip = [] } }) b,
)
handler-Bounded room (sta_got_ip none) w b = b
handler-Bounded room (sta_got_ip (some ip)) w b = ground arith
handler-Bounded room other_event w b = b

pub run_act-Same : (a : Act) (w : Wifi) → Same w (run_act a w)
unfolding run_act wifi_provision set_provision_result_callback fallback_retry_timer_cb
run_act-Same (event room e) w = handler-Same room e w
run_act-Same (request room none request_id) w = ground arith
run_act-Same (request room (some c) request_id) w = ground (
  arith,
  queue_send-Same room (provision_work c request_id) (record w { provisioning_active = true }),
)
run_act-Same (set_callback given) w = ground arith
run_act-Same (retry_timer room) w =
    ground (arith, queue_send-Same room retry_sta (record w { fallback_retry_pending = true }))

pub run_act-Bounded : (a : Act) (w : Wifi) → Bounded w → Bounded (run_act a w)
unfolding run_act wifi_provision set_provision_result_callback fallback_retry_timer_cb
run_act-Bounded (event room e) w b = handler-Bounded room e w b
run_act-Bounded (request room none request_id) w b = b
run_act-Bounded (request room (some c) request_id) w b =
    elim (Bool-cases (credentials_are_valid c)) [
      | inr e ↦ ground arith
      | inl e ↦ ground (
        arith,
        queue_send-Bounded room (provision_work c request_id)
            (record w { provisioning_active = true }) e b,
      )
    ]
run_act-Bounded (set_callback given) w b = ground arith
run_act-Bounded (retry_timer room) w b =
    ground
      (arith, queue_send-Bounded room retry_sta (record w { fallback_retry_pending = true }) tt b)

pub Same-trans : (u v w : Wifi) → Same u v → Same v w → Same u w
Same-trans u v w p q = (q.0 ∙ p.0, q.1 ∙ p.1, q.2 ∙ p.2, q.3 ∙ p.3, q.4 ∙ p.4)

pub run_acts-Same : (acts : List Act) (w : Wifi) → Same w (run_acts acts w)
unfolding run_acts
run_acts-Same [] w = (refl, refl, refl, refl, refl)
run_acts-Same (a ∷ acts) w =
    Same-trans w (run_act a w) (run_acts acts (run_act a w)) (run_act-Same a w)
      (run_acts-Same acts (run_act a w))

pub run_acts-Bounded : (acts : List Act) (w : Wifi) → Bounded w → Bounded (run_acts acts w)
unfolding run_acts
run_acts-Bounded [] w b = b
run_acts-Bounded (a ∷ acts) w b = run_acts-Bounded acts (run_act a w) (run_act-Bounded a w b)
