-- ===== src/Wifi/Reached.antt =====
-- The start of the Wi-Fi manager establishes the invariant, so every state that it reaches has it.
use esp32_s3_hot_tub_base.Base.{
  ◌≡◌, refl, ap, sym, subst, true, false, [], Option, none, some, All, if◌then◌else◌, arith,
}
use esp32_s3_hot_tub_base.Esp.{EspErr, ok, is_ok}
use esp32_s3_hot_tub_base.Storage.Driver.{NvsStore, Storage}
use esp32_s3_hot_tub_base.Wifi.State.{Credentials, is_given, Wifi}
use esp32_s3_hot_tub_base.Wifi.Attempts.{publish_ap_fallback_status}
use esp32_s3_hot_tub_base.Wifi.Start.{
  StartRun, prepared, launched, refused, sta_given, enter_first_mode, wifi_start,
}
use esp32_s3_hot_tub_base.Wifi.Steps.{Reach, started_up, next}
use esp32_s3_hot_tub_base.Wifi.Modes.{IsValidWork}
use esp32_s3_hot_tub_base.Wifi.Waits.{publish_fallback-Quiet}
use esp32_s3_hot_tub_base.Wifi.Invariant.{
  Modes, Same-Modes, Quiet-Modes, sta-Modes, ap-Modes, Modes-if,
}
use esp32_s3_hot_tub_base.Wifi.Preserve.{Step-Modes}

not_ok : (e : EspErr) → e ≡ ok → is_ok e ≡ true
not_ok e q = ap is_ok q

-- A start that returns `ok` entered the mode of credentials that were not refused.
wifi_start-ok :
    (r : StartRun) (c : Option Credentials) (w : Wifi)
    → w.started ≡ false
    → (wifi_start r c w).1 ≡ ok
    → (refused (sta_given c) ≡ false)
      × ((made : Wifi) × ((made.queue ≡ [])
            × ((wifi_start r c w).0 ≡ (
                if is_given (sta_given c)
                then record (enter_first_mode (sta_given c) made) { started = true }
                else publish_ap_fallback_status r.ap_ip
                    (record (enter_first_mode (sta_given c) made) {
                      started = true;
                      status = record (made.status) { ap_started = true };
                    })))))
unfolding wifi_start enter_first_mode
wifi_start-ok r c w s e =
    let made : Wifi = record w {
      events_created = r.events;
      got_ip_bit = false;
      disconnected_bit = false;
      queue_created = r.queue;
      queue = [];
    } in
    let a = not_ok (prepared r) in
    let b = not_ok (launched (is_given (sta_given c)) r) in
    (ground arith, (made, (refl, ground (arith, a, b))))

first_mode-Modes :
    (given : Option Credentials) (made : Wifi)
    → refused given ≡ false
    → made.queue ≡ []
    → Modes (enter_first_mode given made)
unfolding enter_first_mode
first_mode-Modes none made fit e =
    ap-Modes (enter_first_mode none made) refl refl refl (λ a. absurd (ground arith))
      (omega arith, subst (All IsValidWork) (sym e) tt)
first_mode-Modes (some c) made fit e =
    sta-Modes (enter_first_mode (some c) made) refl refl refl refl (ground arith)
      (omega arith, subst (All IsValidWork) (sym e) tt)

pub wifi_start-Modes :
    (r : StartRun) (c : Option Credentials) (w : Wifi)
    → w.started ≡ false
    → (wifi_start r c w).1 ≡ ok
    → Modes (wifi_start r c w).0
wifi_start-Modes r c w s e =
    let (fit, (made, (empty, is))) = wifi_start-ok r c w s e in
    let first : Wifi = enter_first_mode (sta_given c) made in
    let first_m : Modes first = first_mode-Modes (sta_given c) made fit empty in
    subst Modes (sym is) (
      Modes-if (is_given (sta_given c)) _ _
        (Same-Modes first (record first { started = true }) (refl, refl, refl, refl, refl)
          first_m.bounded first_m)
        (Quiet-Modes (publish_ap_fallback_status r.ap_ip) (publish_fallback-Quiet r.ap_ip) _ (
          Same-Modes first
            (record first { started = true; status = record (made.status) { ap_started = true } })
            (refl, refl, refl, refl, refl) first_m.bounded first_m)))

-- In every state that the Wi-Fi manager is in after a start that returned `ok`, and after any rounds of
-- its worker that are complete, with events, requests and timer calls before, between and during them,
-- and whatever the driver and the storage return: either the station is enabled, with valid
-- credentials, or the recovery access point is, not both; at most five attempts are counted; and the
-- credentials in use and in waiting requests fit their fields. Nothing is said of the states within a
-- round.
pub Reach-Modes : (nvs : NvsStore) {x : Wifi × Storage nvs} → Reach nvs x → Modes x.0
Reach-Modes nvs (started_up r c w s idle e) = wifi_start-Modes r c w idle e
Reach-Modes nvs (next p step) = Step-Modes nvs step (Reach-Modes nvs p)
