-- ===== src/Wifi/Invariant.antt =====
-- What holds of the statics of the Wi-Fi manager between two rounds of its worker.
use esp32_s3_hot_tub_base.Base.{
  ℕ, ◌+◌, ◌≡◌, refl, ◌∙◌, inl, inr, ap, sym, Bool, true, false, not, ◌&&◌, List, [], Option, none,
  some, Bool-cases, if◌then◌else◌, arith,
}
use esp32_s3_hot_tub_base.Esp.{EspErr, is_ok}
use esp32_s3_hot_tub_base.Wifi.State.{
  Credentials, is_given, or_zeros, Wifi, credentials_are_valid, publish_network_status,
  sta_connecting, disconnected, ssid_of, sta_down,
}
use esp32_s3_hot_tub_base.Wifi.Events.{schedule_sta_attempt, Act, run_acts}
use esp32_s3_hot_tub_base.Wifi.Attempts.{
  publish_ap_fallback_status, switch_to_fallback, enter_ap_fallback, should_connect,
  process_sta_attempt,
}
use esp32_s3_hot_tub_base.Wifi.Trial.{RollbackRun, restore_sta, restore_ap, first_error}
use esp32_s3_hot_tub_base.Wifi.Modes.{
  Same, Bounded, run_acts-Bounded, schedule_sta_attempt-Same, schedule_sta_attempt-Bounded,
}
use esp32_s3_hot_tub_base.Wifi.Waits.{Quiet, run_acts-Quiet, publish-Quiet, publish_fallback-Quiet}

-- Either the station is enabled, with valid credentials, or the recovery access point is; the
-- attempts stay in range, and the credentials that are in use or waited for fit their fields.
pub record Modes (w : Wifi) : Type 0 where
  pub one_mode : w.ap_enabled ≡ not w.sta_enabled
  pub fallback : w.ap_fallback_active ≡ w.ap_enabled
  pub has_credentials : w.sta_enabled ≡ true → w.active_credentials_valid ≡ true
  pub credentials_fit :
      w.active_credentials_valid ≡ true → credentials_are_valid w.active_credentials ≡ true
  pub bounded : Bounded w

pub Same-Modes : (w w' : Wifi) → Same w w' → Bounded w' → Modes w → Modes w'
Same-Modes w w' q b m = record {
  one_mode = q.1 ∙ m.one_mode ∙ ap not (sym q.0);
  fallback = q.2 ∙ m.fallback ∙ sym q.1;
  has_credentials = λ e. q.3 ∙ m.has_credentials (sym q.0 ∙ e);
  credentials_fit = λ e. ap credentials_are_valid q.4 ∙ m.credentials_fit (sym q.3 ∙ e);
  bounded = b;
}

pub Quiet-Modes : (f : Wifi → Wifi) → Quiet f → (w : Wifi) → Modes w → Modes (f w)
Quiet-Modes f q w m = Same-Modes w (f w) (q w).0 ((q w).1 m.bounded) m

-- The station with credentials that fit, and the recovery access point.
pub sta-Modes :
    (w : Wifi)
    → w.sta_enabled ≡ true
    → w.ap_enabled ≡ false
    → w.ap_fallback_active ≡ false
    → w.active_credentials_valid ≡ true
    → credentials_are_valid w.active_credentials ≡ true
    → Bounded w
    → Modes w
sta-Modes w s a f v c b = record {
  one_mode = a ∙ sym (ap not s);
  fallback = f ∙ sym a;
  has_credentials = λ e. v;
  credentials_fit = λ e. c;
  bounded = b;
}

pub ap-Modes :
    (w : Wifi)
    → w.sta_enabled ≡ false
    → w.ap_enabled ≡ true
    → w.ap_fallback_active ≡ true
    → (w.active_credentials_valid ≡ true → credentials_are_valid w.active_credentials ≡ true)
    → Bounded w
    → Modes w
ap-Modes w s a f c b = record {
  one_mode = a ∙ sym (ap not s);
  fallback = f ∙ sym a;
  has_credentials = λ e. absurd (ground arith);
  credentials_fit = c;
  bounded = b;
}

switch-Modes : (w : Wifi) → Modes w → Modes (switch_to_fallback w)
unfolding switch_to_fallback
switch-Modes w m = elim (Bool-cases (w.ap_fallback_pending && not w.ap_fallback_active)) [
  | inl e ↦ rw e (
      ap-Modes
        (record w {
          ap_fallback_pending = false;
          sta_attempt_pending = false;
          ap_fallback_active = true;
          sta_enabled = false;
          ap_enabled = true;
          status = sta_down w.status;
        })
        refl refl refl m.credentials_fit m.bounded)
  | inr e ↦ rw e (
      Same-Modes w (record w { ap_fallback_pending = false; sta_attempt_pending = false })
        (refl, refl, refl, refl, refl) m.bounded m)
]

-- What holds of both branches of a test holds of the test.
pub Modes-if : (b : Bool) (w w' : Wifi) → Modes w → Modes w' → Modes (if b then w else w')
Modes-if true w w' m m' = m
Modes-if false w w' m m' = m'

pub enter_ap_fallback-Modes :
    (set_mode start : EspErr) (l : List Act) (ip : Option (List ℕ)) (w : Wifi)
    → Modes w
    → Modes (enter_ap_fallback set_mode start l ip w)
unfolding enter_ap_fallback
enter_ap_fallback-Modes set_mode start l ip w m =
    let switched = switch-Modes w m in
    let w' : Wifi = run_acts l (switch_to_fallback w) in
    let m' : Modes w' =
      Quiet-Modes (run_acts l) (run_acts-Quiet l) (switch_to_fallback w) switched in
    Modes-if (w.ap_fallback_pending && not w.ap_fallback_active) _ _
      (Modes-if (is_ok set_mode && is_ok start) _ _
        (Quiet-Modes (publish_ap_fallback_status ip) (publish_fallback-Quiet ip) w' m')
        (Quiet-Modes (publish_network_status disconnected [] []) (publish-Quiet disconnected [] [])
          w' m'))
      switched

schedule-Quiet : (room : Bool) → Quiet (schedule_sta_attempt room)
schedule-Quiet room w = (schedule_sta_attempt-Same room w, schedule_sta_attempt-Bounded room w)

pub process_sta_attempt-Modes :
    (connect : EspErr) (l : List Act) (room : Bool) (w : Wifi)
    → Modes w
    → Modes (process_sta_attempt connect l room w)
unfolding process_sta_attempt should_connect
process_sta_attempt-Modes connect l room w m =
    let idle : Wifi = record w { sta_attempt_pending = false } in
    let idle_m : Modes idle = Same-Modes w idle (refl, refl, refl, refl, refl) m.bounded m in
    elim (Bool-cases (should_connect idle)) [
      | inr e ↦ rw e idle_m
      | inl e ↦
          let tried : Wifi = record idle { sta_connect_attempts = w.sta_connect_attempts + 1 } in
          let tried_m : Modes tried =
            Same-Modes idle tried (refl, refl, refl, refl, refl) (ground arith, m.bounded.1)
              idle_m in
          let w' : Wifi = run_acts l (publish_network_status sta_connecting w.sta_ssid [] tried) in
          let m' : Modes w' = Quiet-Modes (run_acts l) (run_acts-Quiet l) _ (
            Quiet-Modes (publish_network_status sta_connecting w.sta_ssid [])
              (publish-Quiet sta_connecting w.sta_ssid []) tried tried_m) in
          rw e (
            Modes-if (is_ok connect) _ _ m'
              (Quiet-Modes (schedule_sta_attempt room) (schedule-Quiet room) w' m'))
    ]

-- The mode stands when the flag of the provisioning is cleared.
pub freed-Modes : (w : Wifi) → Modes w → Modes (record w { provisioning_active = false })
freed-Modes w m =
    Same-Modes w (record w { provisioning_active = false }) (refl, refl, refl, refl, refl) m.bounded
      m

pub restore_sta-Modes :
    (r : RollbackRun) (p : Credentials) (w : Wifi)
    → credentials_are_valid p ≡ true
    → Bounded w
    → Modes (restore_sta r p w).1
unfolding restore_sta
restore_sta-Modes r p w0 fit b =
    let w : Wifi = run_acts r.before w0 in
    let restored_m =
      sta-Modes
        (record w {
          sta_enabled = true;
          ap_enabled = false;
          active_credentials = p;
          active_credentials_valid = true;
          sta_ssid = ssid_of p;
          provisioning_active = true;
          ap_fallback_active = false;
          ap_fallback_pending = false;
          sta_connect_attempts = 0;
          sta_attempt_pending = false;
        })
        refl refl refl refl fit (omega arith, (run_acts-Bounded r.before w0 b).1) in
    let freed_m =
      freed-Modes _ (Quiet-Modes (run_acts r.between) (run_acts-Quiet r.between) _ restored_m) in
    Quiet-Modes (run_acts r.gap) (run_acts-Quiet r.gap) _ (
      Quiet-Modes (schedule_sta_attempt r.room) (schedule-Quiet r.room) _ (
        Quiet-Modes (publish_network_status sta_connecting p.ssid [])
          (publish-Quiet sta_connecting p.ssid []) _ freed_m))

or_zeros-fit :
    (o : Option Credentials)
    → ((p : Credentials) → o ≡ some p → credentials_are_valid p ≡ true)
    → is_given o ≡ true
    → credentials_are_valid (or_zeros o) ≡ true
or_zeros-fit none f e = absurd (ground arith)
or_zeros-fit (some p) f e = f p refl

pub restore_ap-Modes :
    (r : RollbackRun) (previous : Option Credentials) (w : Wifi)
    → ((p : Credentials) → previous ≡ some p → credentials_are_valid p ≡ true)
    → Bounded w
    → Modes (restore_ap r previous w).1
unfolding restore_ap
restore_ap-Modes r previous w0 fit b =
    let w : Wifi = run_acts r.before w0 in
    let restored_m =
      ap-Modes
        (record w {
          sta_enabled = false;
          ap_enabled = true;
          ap_fallback_active = true;
          ap_fallback_pending = false;
          sta_connect_attempts = 0;
          sta_attempt_pending = false;
          active_credentials = or_zeros previous;
          active_credentials_valid = is_given previous;
          sta_ssid = ssid_of (or_zeros previous);
          provisioning_active = true;
          status = sta_down w.status;
        })
        refl refl refl (or_zeros-fit previous fit)
        (omega arith, (run_acts-Bounded r.before w0 b).1) in
    let freed_m =
      freed-Modes _ (Quiet-Modes (run_acts r.between) (run_acts-Quiet r.between) _ restored_m) in
    Quiet-Modes (run_acts r.gap) (run_acts-Quiet r.gap) _ (
      Modes-if (is_ok (first_error r.set_mode r.start)) _ _
        (Quiet-Modes (publish_ap_fallback_status r.ap_ip) (publish_fallback-Quiet r.ap_ip) _
          freed_m)
        (Quiet-Modes (publish_network_status disconnected [] []) (publish-Quiet disconnected [] [])
          _ freed_m))
