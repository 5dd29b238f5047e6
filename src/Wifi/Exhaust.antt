-- ===== src/Wifi/Exhaust.antt =====
-- A network that is never there: five attempts, then the recovery access point.
use esp32_s3_hot_tub_base.Base.{
  ℕ, suc, ◌+◌, ◌≡◌, ◌<◌, refl, ◌∙◌, inl, inr, ap, sym, subst, true, false, List, [], ◌∷◌, some, leb,
  Bool-cases, Option-cases, if◌then◌else◌, arith,
}
use esp32_s3_hot_tub_base.Esp.{EspErr, ok, is_ok}
use esp32_s3_hot_tub_base.Wifi.State.{
  Credentials, Wifi, connect_sta, enter_fallback, sta_connecting, sta_down, publish_network_status,
  queue_send, update_ap_ip,
}
use esp32_s3_hot_tub_base.Wifi.Events.{
  attempt_work, schedule_sta_attempt, wifi_event_handler, sta_disconnected, event, run_act,
  run_acts,
}
use esp32_s3_hot_tub_base.Wifi.Attempts.{
  publish_ap_fallback_status, switch_to_fallback, enter_ap_fallback, should_connect,
  process_sta_attempt,
}
use esp32_s3_hot_tub_base.Wifi.Start.{
  StartRun, prepared, launched, starts, enter_first_mode, wifi_start,
}
use esp32_s3_hot_tub_base.Wifi.Steps.{WorkRun}

-- An attempt does not start, or the link is lost before it has an address.
abbrev pub Fails : WorkRun → Type 0
Fails r =
    (r.room ≡ true) × (r.acts ≡ (if is_ok r.connect then event true sta_disconnected ∷ [] else []))

-- n attempts were made; the next one, or the recovery after the last, is the only work.
abbrev pub Trying : ℕ → Wifi → Type 0
Trying n w =
    (w.sta_enabled ≡ true)
    × (w.ap_fallback_active ≡ false)
    × (w.provisioning_active ≡ false)
    × (w.status.sta_connected ≡ false)
    × (w.sta_connect_attempts ≡ n)
    × (w.queue_created ≡ true)
    × (w.ap_fallback_pending ≡ leb 5 n)
    × (w.queue ≡ (if leb 5 n then enter_fallback else connect_sta) ∷ [])

-- The recovery access point, with no work left.
abbrev pub Recovering : Wifi → Type 0
Recovering w =
    (w.sta_enabled ≡ false)
    × (w.ap_enabled ≡ true)
    × (w.ap_fallback_active ≡ true)
    × (w.status.sta_connected ≡ false)
    × (w.queue ≡ [])

-- Before an attempt is scheduled.
abbrev Idle : ℕ → Wifi → Type 0
Idle n w =
    (w.sta_enabled ≡ true)
    × (w.ap_fallback_active ≡ false)
    × (w.provisioning_active ≡ false)
    × (w.status.sta_connected ≡ false)
    × (w.sta_connect_attempts ≡ n)
    × (w.queue_created ≡ true)
    × (w.ap_fallback_pending ≡ false)
    × (w.sta_attempt_pending ≡ false)
    × (w.queue ≡ [])

pub schedule-Trying : (n : ℕ) (w : Wifi) → Idle n w → Trying n (schedule_sta_attempt true w)
unfolding schedule_sta_attempt attempt_work queue_send
schedule-Trying n w i = ground arith

disconnected-Trying :
    (n : ℕ) (w : Wifi) → Idle n w → Trying n (run_acts (event true sta_disconnected ∷ []) w)
unfolding run_acts run_act wifi_event_handler
disconnected-Trying n w i =
    ground (arith, schedule-Trying n (record w { status = sta_down w.status }))

published-Idle :
    (n : ℕ) (ssid : List ℕ) (w : Wifi)
    → Idle n w
    → Idle n (publish_network_status sta_connecting ssid [] w)
unfolding publish_network_status
published-Idle n ssid w i = i

-- An attempt that fails counts, and the next one is scheduled.
pub attempt-Trying :
    (n : ℕ) (r : WorkRun) (w : Wifi)
    → n < 5
    → Fails r
    → Trying n w
    → Trying (suc n) (process_sta_attempt r.connect r.acts r.room (record w { queue = [] }))
unfolding process_sta_attempt should_connect run_acts
attempt-Trying n r w lt f t =
    let tried : Wifi = record w {
      queue = [];
      sta_attempt_pending = false;
      sta_connect_attempts = w.sta_connect_attempts + 1;
    } in
    let published : Wifi = publish_network_status sta_connecting w.sta_ssid [] tried in
    let i : Idle (suc n) published = published-Idle (suc n) w.sta_ssid tried (ground arith) in
    elim (Bool-cases (is_ok r.connect)) [
      | inl e ↦ ground (arith, disconnected-Trying (suc n) published i)
      | inr e ↦ ground (arith, schedule-Trying (suc n) published i)
    ]

quiet-Recovering :
    (r : WorkRun) (w : Wifi)
    → Fails r
    → Recovering w
    → w.provisioning_active ≡ false
    → Recovering (run_acts r.acts w)
unfolding run_acts run_act wifi_event_handler
quiet-Recovering r w f q n = elim (Bool-cases (is_ok r.connect)) [
  | inl e ↦
      let acts_are : r.acts ≡ event true sta_disconnected ∷ [] = f.1 ∙ ground arith in
      rw acts_are (ground arith)
  | inr e ↦ let acts_are : r.acts ≡ [] = f.1 ∙ ground arith in rw acts_are q
]

pub fallback-Recovering :
    (r : WorkRun) (w : Wifi)
    → Fails r
    → Trying 5 w
    → Recovering (enter_ap_fallback r.set_mode r.start r.acts r.ap_ip (record w { queue = [] }))
unfolding enter_ap_fallback switch_to_fallback publish_ap_fallback_status update_ap_ip
    publish_network_status
fallback-Recovering r w f t =
    let switched : Wifi = record w {
      queue = [];
      ap_fallback_pending = false;
      sta_attempt_pending = false;
      ap_fallback_active = true;
      sta_enabled = false;
      ap_enabled = true;
      status = sta_down w.status;
    } in
    let q = quiet-Recovering r switched f (refl, refl, refl, refl, refl) t.2 in
    elim (Option-cases r.ap_ip) [
      | inl e ↦ rw e (ground (arith, q))
      | inr (ip, e) ↦ rw e (ground (arith, q))
    ]

is_ok-of : (e : EspErr) → e ≡ ok → is_ok e ≡ true
is_ok-of e q = ap is_ok q

-- The state that the start of the queue and the events leaves.
abbrev made : StartRun → Wifi → Wifi
made r w = record w {
  events_created = r.events;
  got_ip_bit = false;
  disconnected_bit = false;
  queue_created = r.queue;
  queue = [];
}

wifi_start-sta :
    (r : StartRun) (c : Credentials) (w : Wifi)
    → w.started ≡ false
    → starts c.ssid ≡ true
    → (wifi_start r (some c) w).1 ≡ ok
    → (r.queue ≡ true)
      × ((wifi_start r (some c) w).0
          ≡ record (enter_first_mode (some c) (made r w)) { started = true })
unfolding wifi_start
wifi_start-sta r c w s n e =
    let a = is_ok-of (prepared r) in
    let b = is_ok-of (launched true r) in (ground (arith, a, b), ground (arith, a, b))

-- A start with credentials leaves the station to be connected.
pub started-Idle :
    (r : StartRun) (c : Credentials) (w : Wifi)
    → w.started ≡ false
    → w.provisioning_active ≡ false
    → w.status.sta_connected ≡ false
    → starts c.ssid ≡ true
    → (wifi_start r (some c) w).1 ≡ ok
    → Idle 0 (wifi_start r (some c) w).0
unfolding enter_first_mode
started-Idle r c w s p d n e =
    let q = wifi_start-sta r c w s n e in
    subst (Idle 0) (sym q.1) (refl, refl, p, d, refl, q.0, refl, refl, refl)
