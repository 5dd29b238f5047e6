-- ===== src/Wifi/Preserve.antt =====
-- Every step of the Wi-Fi manager keeps its invariant.
use esp32_s3_hot_tub_base.Base.{
  ℕ, ◌≡◌, refl, ◌∙◌, inl, inr, subst, Bool, true, false, not, ◌&&◌, List, ◌∷◌, Option, none, some,
  All, Bool-cases, if◌then◌else◌, arith,
}
use esp32_s3_hot_tub_base.Esp.{is_ok}
use esp32_s3_hot_tub_base.Storage.Driver.{NvsStore, Storage}
use esp32_s3_hot_tub_base.Storage.Credentials.{set_wifi_credentials}
use esp32_s3_hot_tub_base.Wifi.State.{
  Credentials, Wifi, Work, connect_sta, enter_fallback, retry_sta, refresh_clients, provision_work,
  credentials_are_valid, sta_down, refresh_ap_clients, fallback_retry_attempts,
}
use esp32_s3_hot_tub_base.Wifi.Events.{run_act, run_acts}
use esp32_s3_hot_tub_base.Wifi.Attempts.{publish_ap_fallback_status}
use esp32_s3_hot_tub_base.Wifi.Trial.{
  clear_bits, wait_for_candidate_connection, RollbackRun, TrialRun, restore_previous_configuration,
  finish_provisioning, first_error, in_use, from_ap, begin_trial, commit_trial,
}
use esp32_s3_hot_tub_base.Wifi.Provision.{
  try_link, process_provision_request, process_fallback_retry, RetryRun,
}
use esp32_s3_hot_tub_base.Wifi.Steps.{WorkRun, run_work, Step, acts, works}
use esp32_s3_hot_tub_base.Wifi.Modes.{
  Bounded, IsValidWork, run_act-Same, run_act-Bounded, run_acts-Bounded,
}
use esp32_s3_hot_tub_base.Wifi.Waits.{
  Quiet, Quiet-then, run_acts-Quiet, publish_fallback-Quiet, refresh-Quiet, clear_bits-Quiet,
  wait_for-Quiet, try_link-Quiet,
}
use esp32_s3_hot_tub_base.Wifi.Invariant.{
  Modes, Same-Modes, Quiet-Modes, sta-Modes, Modes-if, enter_ap_fallback-Modes,
  process_sta_attempt-Modes, freed-Modes, restore_sta-Modes, restore_ap-Modes,
}

in_use-fit :
    (w : Wifi) → Modes w → (p : Credentials) → in_use w ≡ some p → credentials_are_valid p ≡ true
in_use-fit w m p e = ground (arith, m.credentials_fit)

restore-Modes :
    (r : RollbackRun) (o : Option Credentials) (b : Bool) (w : Wifi)
    → ((p : Credentials) → o ≡ some p → credentials_are_valid p ≡ true)
    → Bounded w
    → Modes (restore_previous_configuration r o b w).1
unfolding restore_previous_configuration
restore-Modes r none b w fit bound = restore_ap-Modes r none w fit bound
restore-Modes r (some p) true w fit bound = restore_ap-Modes r (some p) w fit bound
restore-Modes r (some p) false w fit bound = restore_sta-Modes r p w (fit p refl) bound

commit-Modes :
    (c : Credentials) (w : Wifi)
    → credentials_are_valid c ≡ true
    → Bounded w
    → Modes (commit_trial c w)
unfolding commit_trial
commit-Modes c w fit b = sta-Modes (commit_trial c w) refl refl refl refl fit (omega arith, b.1)

begin_trial-Bounded : (c : Credentials) (w : Wifi) → Bounded w → Bounded (begin_trial c w)
unfolding begin_trial
begin_trial-Bounded c w b = (omega arith, b.1)

-- What the end of a retry leaves of the state from which it started.
retry_end-Quiet :
    (r : RetryRun)
    → Quiet (λ w0.
      let w = run_acts r.early (record w0 { provisioning_active = true }) in
      run_acts r.late (
        if is_ok (first_error r.set_mode r.set_config)
        then (wait_for_candidate_connection fallback_retry_attempts r.waits (clear_bits w)).1
        else w))
retry_end-Quiet r w0 =
    let begun : Wifi → Wifi = λ u. run_acts r.early (record u { provisioning_active = true }) in
    let begun_q : Quiet begun =
      Quiet-then (λ u. record u { provisioning_active = true }) (run_acts r.early)
        (λ u. ((refl, refl, refl, refl, refl), λ b. b)) (run_acts-Quiet r.early) in
    let wait : Wifi → Wifi =
      λ u. (wait_for_candidate_connection fallback_retry_attempts r.waits u).1 in
    let linked_q : Quiet (λ u. wait (clear_bits (begun u))) =
      Quiet-then (λ u. clear_bits (begun u)) wait
        (Quiet-then begun clear_bits begun_q clear_bits-Quiet)
        (wait_for-Quiet fallback_retry_attempts r.waits) in
    elim (Bool-cases (is_ok (first_error r.set_mode r.set_config))) [
      | inl e ↦ rw e (
          Quiet-then (λ u. wait (clear_bits (begun u))) (run_acts r.late) linked_q
            (run_acts-Quiet r.late) w0)
      | inr e ↦ rw e (Quiet-then begun (run_acts r.late) begun_q (run_acts-Quiet r.late) w0)
    ]

cleared-Modes :
    (w : Wifi)
    → Modes w
    → Modes (record w { provisioning_active = false; fallback_retry_pending = false })
cleared-Modes w m =
    Same-Modes w (record w { provisioning_active = false; fallback_retry_pending = false })
      (refl, refl, refl, refl, refl) m.bounded m

process_fallback_retry-Modes :
    (r : RetryRun) (w : Wifi) → Modes w → Modes (process_fallback_retry r w)
unfolding process_fallback_retry
process_fallback_retry-Modes r w0 m =
    let w : Wifi = run_acts r.early (record w0 { provisioning_active = true }) in
    let begun_m : Modes w = Quiet-Modes (run_acts r.early) (run_acts-Quiet r.early) _ (
      Same-Modes w0 (record w0 { provisioning_active = true }) (refl, refl, refl, refl, refl)
        m.bounded m) in
    let end : Wifi = run_acts r.late (
      if is_ok (first_error r.set_mode r.set_config)
      then (wait_for_candidate_connection fallback_retry_attempts r.waits (clear_bits w)).1
      else w) in
    let q = retry_end-Quiet r w0 in
    let end_m : Modes end = Same-Modes w0 end q.0 (q.1 m.bounded) m in
    elim (Bool-cases
      (w0.ap_fallback_active && w0.active_credentials_valid && not w0.provisioning_active)) [
        | inr e ↦ rw e (
            Same-Modes w0 (record w0 { fallback_retry_pending = false })
              (refl, refl, refl, refl, refl) m.bounded m)
        | inl e ↦
            let valid : w0.active_credentials_valid ≡ true = ground arith in
            rw e (
              Modes-if _ _ _ (cleared-Modes w begun_m) (
                Modes-if _ _ _
                  (sta-Modes
                    (record end {
                      sta_enabled = true;
                      ap_enabled = false;
                      ap_fallback_active = false;
                      ap_fallback_pending = false;
                      sta_connect_attempts = 0;
                      sta_attempt_pending = false;
                      provisioning_active = false;
                      fallback_retry_pending = false;
                    })
                    refl refl refl (q.0.3 ∙ valid) (end_m.credentials_fit (q.0.3 ∙ valid))
                    (omega arith, (q.1 m.bounded).1))
                  (Quiet-Modes (publish_ap_fallback_status r.ap_ip) (publish_fallback-Quiet r.ap_ip)
                    _
                    (Same-Modes end
                      (record end {
                        status = sta_down end.status;
                        provisioning_active = false;
                        fallback_retry_pending = false;
                      })
                      (refl, refl, refl, refl, refl) end_m.bounded end_m))))
      ]

module _ (nvs : NvsStore) where
  process_provision-Modes :
      (t : TrialRun) (r : RollbackRun) (c : Credentials) (request_id : ℕ) (w : Wifi)
      (s : Storage nvs)
      → credentials_are_valid c ≡ true
      → Modes w
      → Modes (process_provision_request nvs t r c request_id (w, s)).0
  unfolding process_provision_request finish_provisioning
  process_provision-Modes t r c request_id w0 s fit m =
      let link = try_link t (from_ap w0) c (begin_trial c w0) in
      let b : Bounded link.1 =
        (try_link-Quiet t (from_ap w0) c (begin_trial c w0)).1
          (begin_trial-Bounded c w0 m.bounded) in
      let done =
        freed-Modes _
          (commit-Modes c (run_acts t.late link.1) fit (run_acts-Bounded t.late link.1 b)) in
      let undone =
        freed-Modes _ (restore-Modes r (in_use w0) (from_ap w0) link.1 (in_use-fit w0 m) b) in
      elim (Bool-cases (is_ok link.0)) [
        | inr e ↦ rw e undone
        | inl e ↦ elim (Bool-cases (is_ok (set_wifi_credentials nvs c.ssid c.password s).0)) [
          | inl e' ↦ rw e (rw e' done)
          | inr e' ↦ rw e (rw e' undone)
        ]
      ]

  IsValidWork-provision :
      (c : Credentials) (request_id : ℕ)
      → IsValidWork (provision_work c request_id)
      → credentials_are_valid c ≡ true
  IsValidWork-provision c request_id v = v

  run_work-Modes :
      (r : WorkRun) (item : Work) (w : Wifi) (s : Storage nvs)
      → IsValidWork item
      → Modes w
      → Modes (run_work nvs r item (w, s)).0
  unfolding run_work
  run_work-Modes r connect_sta w s v m = process_sta_attempt-Modes r.connect r.acts r.room w m
  run_work-Modes r enter_fallback w s v m =
      enter_ap_fallback-Modes r.set_mode r.start r.acts r.ap_ip w m
  run_work-Modes r retry_sta w s v m = process_fallback_retry-Modes r.retry w m
  run_work-Modes r refresh_clients w s v m =
      Quiet-Modes (refresh_ap_clients r.stations) (refresh-Quiet r.stations) w m
  run_work-Modes r (provision_work c request_id) w s v m =
      process_provision-Modes r.trial r.rollback c request_id w s v m

  popped-Modes :
      (item : Work) (rest : List Work) (w : Wifi)
      → w.queue ≡ item ∷ rest
      → Modes w
      → IsValidWork item × Modes (record w { queue = rest })
  popped-Modes item rest w e m =
      let q : All IsValidWork (item ∷ rest) = subst (All IsValidWork) e m.bounded.1 in
      (
        q.0,
        Same-Modes w (record w { queue = rest }) (refl, refl, refl, refl, refl) (m.bounded.0, q.1)
            m,
      )

  -- A step keeps the invariant, whatever the other tasks and the calls of the worker do.
  pub Step-Modes : {x y : Wifi × Storage nvs} → Step nvs x y → Modes x.0 → Modes y.0
  Step-Modes (acts a w s) m =
      Same-Modes w (run_act a w) (run_act-Same a w) (run_act-Bounded a w m.bounded) m
  Step-Modes (works r item rest w s e) m =
      let q = popped-Modes item rest w e m in
      run_work-Modes r item (record w { queue = rest }) s q.0 q.1
