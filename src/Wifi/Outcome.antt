-- ===== src/Wifi/Outcome.antt =====
-- A request for new credentials changes everything or nothing, and what it stored is read back.
use esp32_s3_hot_tub_base.Base.{
  List, ◌∙◌, ℕ, ◌≡◌, ◌≢◌, ◌<◌, refl, ◌⊎◌, inl, inr, ap, sym, subst, Bool, true, false, Option, some,
  length, Bool-cases, arith,
}
use esp32_s3_hot_tub_base.Esp.{EspErr, ok, is_ok}
use esp32_s3_hot_tub_base.HotTub.State.{c_string}
use esp32_s3_hot_tub_base.Storage.Driver.{NvsStore, NvsStoreLaws, NvsReopens, restarted, Storage}
use esp32_s3_hot_tub_base.Storage.Credentials.{
  set_wifi_credentials, get_wifi_credentials, ssid_storage_size, password_storage_size, strnlen,
}
use esp32_s3_hot_tub_base.Storage.RoundTrip.{credentials_round_trip, set_wifi_credentials-ok}
use esp32_s3_hot_tub_base.Storage.Restart.{get_wifi_credentials-reopens}
use esp32_s3_hot_tub_base.Wifi.State.{Credentials, Wifi, credentials_are_valid}
use esp32_s3_hot_tub_base.Wifi.Events.{run_acts}
use esp32_s3_hot_tub_base.Wifi.Trial.{
  TrialRun, RollbackRun, restore_previous_configuration, finish_provisioning, in_use, from_ap,
  begin_trial, commit_trial,
}
use esp32_s3_hot_tub_base.Wifi.Provision.{try_link, process_provision_request}
use esp32_s3_hot_tub_base.Wifi.Invariant.{Modes}
use esp32_s3_hot_tub_base.Wifi.Rollback.{Reports, Restored, Provisioned, restore-Restored}

finish-Reports :
    (request_id : ℕ) (err : EspErr) (good : Bool) (w : Wifi)
    → is_ok err ≡ good
    → let e = finish_provisioning request_id err w in
      (e.0.provisioning_active ≡ false) × Reports request_id good e.1
unfolding finish_provisioning
finish-Reports request_id err good w g =
    (refl, elim (Bool-cases w.callback_set) [ inl e ↦ rw e (refl, g) | inr e ↦ rw e tt ])

finished-Restored :
    (request_id : ℕ) (err : EspErr) (w0 w : Wifi)
    → Restored w0 w
    → Restored w0 (finish_provisioning request_id err w).0
unfolding finish_provisioning
finished-Restored request_id err w0 w q = q

committed :
    (request_id : ℕ) (c : Credentials) (w : Wifi)
    → Provisioned c (finish_provisioning request_id ok (commit_trial c w)).0
unfolding finish_provisioning commit_trial
committed request_id c w = (refl, refl, refl, refl)

not_failure : (request_id : ℕ) → Reports request_id false (some (request_id, ok)) → ⊥
not_failure request_id q = ground (arith, q)

module _ (nvs : NvsStore) where
  -- What a request made: its link and the storage were had, and the station has the new
  -- credentials; or the mode and the credentials in use are as before.
  abbrev pub AllOrNothing :
      Credentials → ℕ → Wifi × Storage nvs → Wifi × Storage nvs × Option (ℕ × EspErr) → Type 0
  AllOrNothing c request_id (w0, s0) (w, s, report) =
      (((set_wifi_credentials nvs c.ssid c.password s0).0 ≡ ok)
        × (s ≡ (set_wifi_credentials nvs c.ssid c.password s0).1)
        × Provisioned c w
        × Reports request_id true report)
      ⊎ (((s ≡ s0) ⊎ ((set_wifi_credentials nvs c.ssid c.password s0).0 ≢ ok))
          × Restored w0 w
          × Reports request_id false report)

  is_ok-ok : (e : EspErr) → is_ok e ≡ true → e ≡ ok
  is_ok-ok e q = ground arith

  -- In a state that keeps the invariant, a request for new credentials that the worker processes
  -- ends with no provisioning active, and either with the credentials written to the storage without
  -- an error, the station enabled with them, and no report but success; or with the mode and the
  -- credentials in use before it, a storage that is as before unless writing to it failed, and no
  -- report but a failure. This holds whatever the driver returns and other tasks do meanwhile.
  pub provision-AllOrNothing :
      (t : TrialRun) (r : RollbackRun) (c : Credentials) (request_id : ℕ) (w0 : Wifi)
      (s0 : Storage nvs)
      → Modes w0
      → let e = process_provision_request nvs t r c request_id (w0, s0) in
        (e.0.provisioning_active ≡ false) × AllOrNothing c request_id (w0, s0) e
  unfolding process_provision_request
  provision-AllOrNothing t r c request_id w0 s0 m =
      let link = try_link t (from_ap w0) c (begin_trial c w0) in
      let stored = set_wifi_credentials nvs c.ssid c.password s0 in
      let back = restore-Restored r w0 link.1 m in
      let w : Wifi = (restore_previous_configuration r (in_use w0) (from_ap w0) link.1).1 in
      elim (Bool-cases (is_ok link.0)) [
        | inr e ↦
            let f = finish-Reports request_id link.0 false w e in
            rw e (f.0, inr (inl refl, finished-Restored request_id link.0 w0 w back, f.1))
        | inl e ↦ elim (Bool-cases (is_ok stored.0)) [
          | inr e' ↦
              let f = finish-Reports request_id stored.0 false w e' in
              rw e (
                rw e' (
                  f.0,
                  inr (
                    inr (λ q. absurd (ground (arith, ap is_ok q))),
                    finished-Restored request_id stored.0 w0 w back,
                    f.1,
                  ),
                ))
          | inl e' ↦
              let v : Wifi = commit_trial c (run_acts t.late link.1) in
              let f = finish-Reports request_id ok true v refl in
              rw e (
                rw e' (
                  f.0,
                  inl (
                    is_ok-ok stored.0 e',
                    refl,
                    committed request_id c (run_acts t.late link.1),
                    f.1,
                  ),
                ))
        ]
      ]

  fits :
      (c : Credentials)
      → credentials_are_valid c ≡ true
      → (length (c_string c.ssid) < ssid_storage_size)
        × (length (c_string c.password) < password_storage_size)
  unfolding credentials_are_valid strnlen
  fits c v = ground arith

  set_wifi_credentials-open :
      (ssid password : List ℕ) (s0 : Storage nvs)
      → (set_wifi_credentials nvs ssid password s0).0 ≡ ok
      → (set_wifi_credentials nvs ssid password s0).1.initialized ≡ true
  set_wifi_credentials-open ssid password s0 e = (set_wifi_credentials-ok nvs ssid password s0 e).6

  -- With a storage that returns what it stored, and that after a restart is initialized and opened
  -- without an error and has what it had, and in a state that keeps the invariant: when a request
  -- with valid credentials is reported as a success, the start-up code of the next boot, which
  -- initializes and opens the storage again, reads exactly these credentials into its buffers.
  pub provisioned_read_back :
      NvsStoreLaws nvs
      → NvsReopens nvs
      → (t : TrialRun) (r : RollbackRun) (c : Credentials) (request_id : ℕ) (w0 : Wifi)
        (s0 : Storage nvs)
      → Modes w0
      → credentials_are_valid c ≡ true
      → let e = process_provision_request nvs t r c request_id (w0, s0) in
        e.2 ≡ some (request_id, ok)
        → let boot =
            get_wifi_credentials nvs ssid_storage_size password_storage_size (restarted nvs e.1) in
          (boot.0 ≡ ok) × (boot.1 ≡ some (c_string c.ssid, c_string c.password))
  provisioned_read_back laws again t r c request_id w0 s0 m v said =
      elim (provision-AllOrNothing t r c request_id w0 s0 m).1 [
        | inl q ↦
            let size = fits c v in
            let s = (set_wifi_credentials nvs c.ssid c.password s0).1 in
            let back =
              credentials_round_trip nvs laws c.ssid c.password ssid_storage_size
                password_storage_size s0 q.0 size.0 size.1 in
            let same =
              get_wifi_credentials-reopens nvs again ssid_storage_size password_storage_size s
                (set_wifi_credentials-open c.ssid c.password s0 q.0) in
            subst
              (λ u.
                let boot =
                  get_wifi_credentials nvs ssid_storage_size password_storage_size
                    (restarted nvs u) in
                (boot.0 ≡ ok) × (boot.1 ≡ some (c_string c.ssid, c_string c.password)))
              (sym q.1) (same.0 ∙ ap (λ x. x.0) back, same.1 ∙ ap (λ x. x.1) back)
        | inr q ↦ absurd (not_failure request_id (subst (Reports request_id false) said q.2))
      ]
