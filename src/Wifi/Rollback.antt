-- ===== src/Wifi/Rollback.antt =====
-- The rollback of a trial restores the mode and the credentials that stood before it.
use esp32_s3_hot_tub_base.Base.{
  ℕ, ◌≡◌, refl, ◌∙◌, inl, inr, ap, sym, subst, Bool, true, false, if◌then◌else◌, [], Option, none,
  some, Bool-cases, arith,
}
use esp32_s3_hot_tub_base.Esp.{EspErr, is_ok}
use esp32_s3_hot_tub_base.Wifi.State.{
  Credentials, is_given, or_zeros, Wifi, publish_network_status, sta_connecting, disconnected,
  ssid_of, sta_down,
}
use esp32_s3_hot_tub_base.Wifi.Events.{schedule_sta_attempt, run_acts}
use esp32_s3_hot_tub_base.Wifi.Attempts.{publish_ap_fallback_status}
use esp32_s3_hot_tub_base.Wifi.Trial.{
  RollbackRun, first_error, restore_sta, restore_ap, restore_previous_configuration, in_use,
  from_ap,
}
use esp32_s3_hot_tub_base.Wifi.Modes.{Same, Same-trans, run_acts-Same, schedule_sta_attempt-Same}
use esp32_s3_hot_tub_base.Wifi.Waits.{publish-Quiet, publish_fallback-Quiet}
use esp32_s3_hot_tub_base.Wifi.Invariant.{Modes}

-- A report, if there is one, is of the request, with success or without.
abbrev pub Reports : ℕ → Bool → Option (ℕ × EspErr) → Type 0
Reports request_id good none = Unit {0}
Reports request_id good (some (i, err)) = (i ≡ request_id) × (is_ok err ≡ good)

-- The station or the recovery access point as before, with the same credentials in use.
abbrev pub Restored : Wifi → Wifi → Type 0
Restored w0 w =
    (w.sta_enabled ≡ w0.sta_enabled)
    × (w.ap_enabled ≡ w0.ap_enabled)
    × (w.ap_fallback_active ≡ w0.ap_fallback_active)
    × (in_use w ≡ in_use w0)

-- The station with new credentials.
abbrev pub Provisioned : Credentials → Wifi → Type 0
Provisioned c w =
    (w.sta_enabled ≡ true)
    × (w.ap_enabled ≡ false)
    × (w.ap_fallback_active ≡ false)
    × (in_use w ≡ some c)

Same-in_use : (w w' : Wifi) → Same w w' → in_use w' ≡ in_use w
Same-in_use w w' q = ground (arith, q.3, q.4)

restore_sta-mode :
    (r : RollbackRun) (p : Credentials) (w : Wifi) → Provisioned p (restore_sta r p w).1
unfolding restore_sta
restore_sta-mode r p w0 =
    let w : Wifi = run_acts r.before w0 in
    let restored : Wifi = record w {
      sta_enabled = true;
      ap_enabled = false;
      active_credentials = p;
      active_credentials_valid = true;
      sta_ssid = ssid_of p;
      provisioning_active = true;
      ap_fallback_active = false;
      ap_fallback_pending = false;
      sta_connect_attempts = 0;
      sta_attempt_pending = false;
    } in
    let v : Wifi = run_acts r.between restored in
    let freed : Wifi = record v { provisioning_active = false } in
    let published : Wifi = publish_network_status sta_connecting p.ssid [] freed in
    let scheduled : Wifi = schedule_sta_attempt r.room published in
    let q : Same restored (run_acts r.gap scheduled) =
      Same-trans restored scheduled (run_acts r.gap scheduled)
        (Same-trans restored published scheduled
          (Same-trans restored freed published (run_acts-Same r.between restored)
            (publish-Quiet sta_connecting p.ssid [] freed).0)
          (schedule_sta_attempt-Same r.room published))
        (run_acts-Same r.gap scheduled) in
    (q.0, q.1, q.2, Same-in_use restored (run_acts r.gap scheduled) q)

Same-if : (b : Bool) (u w w' : Wifi) → Same u w → Same u w' → Same u (if b then w else w')
Same-if true u w w' p q = p
Same-if false u w w' p q = q

given_in_use : (o : Option Credentials) → (if is_given o then some (or_zeros o) else none) ≡ o
given_in_use none = refl
given_in_use (some p) = refl

restore_ap-mode :
    (r : RollbackRun) (o : Option Credentials) (w : Wifi)
    → let w' = (restore_ap r o w).1 in
      (w'.sta_enabled ≡ false)
      × (w'.ap_enabled ≡ true)
      × (w'.ap_fallback_active ≡ true)
      × (in_use w' ≡ o)
unfolding restore_ap
restore_ap-mode r o w0 =
    let w : Wifi = run_acts r.before w0 in
    let restored : Wifi = record w {
      sta_enabled = false;
      ap_enabled = true;
      ap_fallback_active = true;
      ap_fallback_pending = false;
      sta_connect_attempts = 0;
      sta_attempt_pending = false;
      active_credentials = or_zeros o;
      active_credentials_valid = is_given o;
      sta_ssid = ssid_of (or_zeros o);
      provisioning_active = true;
      status = sta_down w.status;
    } in
    let v : Wifi = run_acts r.between restored in
    let freed : Wifi = record v { provisioning_active = false } in
    let published : Wifi =
      if is_ok (first_error r.set_mode r.start)
      then publish_ap_fallback_status r.ap_ip freed
      else publish_network_status disconnected [] [] freed in
    let q : Same restored (run_acts r.gap published) =
      Same-trans restored published (run_acts r.gap published)
        (Same-trans restored freed published (run_acts-Same r.between restored) (
          Same-if (is_ok (first_error r.set_mode r.start)) freed _ _
            (publish_fallback-Quiet r.ap_ip freed).0 (publish-Quiet disconnected [] [] freed).0))
        (run_acts-Same r.gap published) in
    (q.0, q.1, q.2, Same-in_use restored (run_acts r.gap published) q ∙ given_in_use o)

restore-from_ap :
    (r : RollbackRun) (o : Option Credentials) (w : Wifi)
    → restore_previous_configuration r o true w ≡ restore_ap r o w
unfolding restore_previous_configuration
restore-from_ap r none w = refl
restore-from_ap r (some p) w = refl

-- The rollback leaves what stood before the trial.
pub restore-Restored :
    (r : RollbackRun) (w0 w : Wifi)
    → Modes w0
    → Restored w0 (restore_previous_configuration r (in_use w0) (from_ap w0) w).1
unfolding restore_previous_configuration
restore-Restored r w0 w m = elim (Bool-cases (from_ap w0)) [
  | inl f ↦
      let q = restore_ap-mode r (in_use w0) w in
      let a : w0.sta_enabled ≡ false = ground (arith, m.one_mode, m.fallback, m.has_credentials) in
      let e : (restore_previous_configuration r (in_use w0) (from_ap w0) w).1
          ≡ (restore_ap r (in_use w0) w).1 =
        ap (λ b. (restore_previous_configuration r (in_use w0) b w).1) f
        ∙ ap (λ x. x.1) (restore-from_ap r (in_use w0) w) in
      subst (Restored w0) (sym e) (
        q.0 ∙ sym a,
        q.1 ∙ ground (arith, m.one_mode),
        q.2 ∙ ground (arith, m.one_mode, m.fallback),
        q.3,
      )
  | inr f ↦
      let q = restore_sta-mode r w0.active_credentials w in
      let v : in_use w0 ≡ some w0.active_credentials = ground arith in
      let n : w0.ap_fallback_active ≡ false = ground arith in
      let a : w0.ap_enabled ≡ false = sym m.fallback ∙ n in
      let e : (restore_previous_configuration r (in_use w0) (from_ap w0) w).1
          ≡ (restore_sta r w0.active_credentials w).1 =
        ap (λ b. (restore_previous_configuration r (in_use w0) b w).1) f
        ∙ ap (λ o. (restore_previous_configuration r o false w).1) v in
      subst (Restored w0) (sym e)
        (q.0 ∙ ground (arith, m.one_mode), q.1 ∙ sym a, q.2 ∙ sym n, q.3 ∙ sym v)
]
