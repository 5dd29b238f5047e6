-- ===== src/HotTub/Persistence.antt =====
-- What reaches the shared state and the flash, and what does not.
use esp32_s3_hot_tub_base.Base.{
  ◌∙◌, sym, ap, ◌≡◌, refl, ◌≢◌, Bool, true, ℕ, zero, suc, none, some, arith,
}
use esp32_s3_hot_tub_base.Esp.{ok}
use esp32_s3_hot_tub_base.Float.Ops.{FloatOps}
use esp32_s3_hot_tub_base.HotTub.State.{HotTub}
use esp32_s3_hot_tub_base.HotTub.Persist.{
  System, NvsDriver, NvsLaws, snapshot_get, snapshot_set, take_state_lock, save_settings,
  mark_dirty, persistence_wake, settings_save, settings_load,
}
use esp32_s3_hot_tub_base.HotTub.StructIo.{
  set_setpoint_temp, set_heater_on, set_pump_state, saved, saved_quietly,
}
use esp32_s3_hot_tub_base.HotTub.Control.{
  Loop, Round, before_control, auto_decide, auto_control, after_control, verify, control_round,
  persist_round, Gaps, persist_among, control_cycle, needs_heat, heat_satisfied,
}

module _ {F : Type 0} (nvs : NvsDriver (HotTub F)) where
  open nvs use {Flash, open_readonly, open_writable, set_blob, commit, get_blob}

  settings_save-ok :
      (taken : Bool) (zero_state : HotTub F) (s : System F) (f : Flash)
      → (settings_save nvs taken zero_state s f).0 ≡ ok
      → let f' = (open_writable f).1 in
        ((set_blob s.ctl f').0 ≡ ok)
        × ((commit (set_blob s.ctl f').1).0 ≡ ok)
        × ((settings_save nvs taken zero_state s f).1 ≡ (commit (set_blob s.ctl f').1).1)
  unfolding settings_save snapshot_get take_state_lock
  settings_save-ok taken zero_state s f e = ground arith

  settings_load-ok :
      (s' : System F) (f : Flash) (stored : HotTub F)
      → s'.mutex ≡ true
      → (open_readonly f).0 ≡ ok
      → get_blob (open_readonly f).1 ≡ (ok, stored)
      → ((settings_load nvs true s' f).0.ctl ≡ stored) × ((settings_load nvs true s' f).1 ≡ ok)
  unfolding settings_load snapshot_set take_state_lock
  settings_load-ok s' f stored m o g = ground (arith, g)

  -- With a storage that returns what it stored and the mutex created, settings whose saving
  -- reports success come back when they are loaded after a restart, if the storage opens and the
  -- lock is had.
  pub settings_round_trip :
      NvsLaws nvs
      → (taken : Bool) (zero_state : HotTub F) (s s' : System F) (f : Flash)
      → (settings_save nvs taken zero_state s f).0 ≡ ok
      → s'.mutex ≡ true
      → let written = (settings_save nvs taken zero_state s f).1 in
        (open_readonly written).0 ≡ ok
        → ((settings_load nvs true s' written).0.ctl ≡ s.ctl)
          × ((settings_load nvs true s' written).1 ≡ ok)
  settings_round_trip laws taken zero_state s s' f saved_ok m opened =
      let q = settings_save-ok taken zero_state s f saved_ok in
      let written : Flash = (settings_save nvs taken zero_state s f).1 in
      settings_load-ok s' written s.ctl m opened (
        ap (λ k. get_blob (open_readonly k).1) q.2
        ∙ laws.read_back s.ctl (open_writable f).1 q.0 q.1
            (sym (ap (λ k. (open_readonly k).0) q.2) ∙ opened))

module _ (fl : FloatOps) where
  open fl use {Float}

  set_setpoint_temp-keeps :
      (x : Float) (s : System Float)
      → ((set_setpoint_temp x s).mutex ≡ s.mutex)
        × ((set_setpoint_temp x s).ctl ≡ record (s.ctl) { setpoint_temp = x })
  unfolding set_setpoint_temp mark_dirty
  set_setpoint_temp-keeps x s = ground arith

  persist_round-ctl :
      (snap : HotTub Float) (s : System Float)
      → s.mutex ≡ true
      → (persist_round fl true snap s).ctl ≡ snap
  unfolding persist_round mark_dirty
  persist_round-ctl snap s m = ground arith

  auto_decide-setpoint :
      (needs satisfied : Bool) (r : Round Float)
      → (auto_decide fl needs satisfied r).snap.setpoint_temp ≡ r.snap.setpoint_temp
  unfolding auto_decide
  auto_decide-setpoint needs satisfied r = ground arith

  verify-setpoint : (h : HotTub Float) → (verify fl h).setpoint_temp ≡ h.setpoint_temp
  unfolding verify
  verify-setpoint h = refl

  auto_control-setpoint :
      (r : Round Float) → (auto_control fl r).snap.setpoint_temp ≡ r.snap.setpoint_temp
  unfolding auto_control
  auto_control-setpoint r =
      let n = needs_heat fl (verify fl r.snap) in
      let m = heat_satisfied fl (verify fl r.snap) in
      ground (
        arith,
        verify-setpoint r.snap,
        auto_decide-setpoint n m (record { loop = r.loop; snap = verify fl r.snap }),
      )

  before_control-setpoint :
      (loop : Loop) (h : HotTub Float)
      → (before_control fl loop h).snap.setpoint_temp ≡ h.setpoint_temp
  unfolding before_control
  before_control-setpoint loop h = ground arith

  after_control-setpoint :
      (r : Round Float) → (after_control fl r).snap.setpoint_temp ≡ r.snap.setpoint_temp
  unfolding after_control
  after_control-setpoint r = ground arith

  control_round-setpoint :
      (loop : Loop) (h : HotTub Float)
      → (control_round fl loop h).snap.setpoint_temp ≡ h.setpoint_temp
  unfolding control_round
  control_round-setpoint loop h =
      let b : Round Float = before_control fl loop h in
      after_control-setpoint (auto_control fl b)
      ∙ auto_control-setpoint b
      ∙ before_control-setpoint loop h

  -- With the mutex created and its lock had, a target temperature that a client sets after a round
  -- has read the state is lost when the round writes its copy back.
  pub setpoint_update_lost :
      (loop : Loop) (s : System Float) (x : Float)
      → s.mutex ≡ true
      → (persist_round fl true
          (control_round fl loop s.ctl).snap
          (set_setpoint_temp x s)).ctl.setpoint_temp
        ≡ s.ctl.setpoint_temp
  setpoint_update_lost loop s x m =
      let snap = (control_round fl loop s.ctl).snap in
      ap (λ h. h.setpoint_temp)
        (persist_round-ctl snap (set_setpoint_temp x s) ((set_setpoint_temp-keeps x s).0 ∙ m))
      ∙ control_round-setpoint loop s.ctl

  save_settings-queue :
      (n : ℕ) (s : System Float)
      → s.queue ≡ some n
      → (k : ℕ) × ((save_settings s).0.queue ≡ some (suc k))
  unfolding save_settings mark_dirty
  save_settings-queue zero s q = (0, ground arith)
  save_settings-queue (suc n) s q = (n, ground arith)

  persist_round-queue :
      (taken : Bool) (snap : HotTub Float) (n : ℕ) (s : System Float)
      → s.queue ≡ some n
      → (k : ℕ) × ((persist_round fl taken snap s).queue ≡ some (suc k))
  unfolding persist_round set_heater_on set_pump_state saved saved_quietly snapshot_set
  persist_round-queue taken snap n s q =
      let s1 : System Float = record s { ctl = record (s.ctl) { heater_on = snap.heater_on } } in
      let (k, e) = save_settings-queue n s1 q in
      let s2 : System Float = (save_settings s1).0 in
      let s3 : System Float = record s2 {
        ctl = record (s2.ctl) { pump_state = snap.pump_state };
      } in
      let (j, f) = save_settings-queue (suc k) s3 e in (j, ground (arith, f))

  persistence_wake-some :
      (k : ℕ) (s : System Float) → s.queue ≡ some (suc k) → persistence_wake s ≢ none
  unfolding persistence_wake
  persistence_wake-some k s q = ground arith

  -- No other task acts during the cycle.
  abbrev no_gaps : Gaps Float
  no_gaps = record { after_read = λ s. s; between = λ s. s; after_pump = λ s. s }

  -- With the mutex and the queue created, every cycle that gets its snapshot, and that no other task
  -- interrupts, leaves a notification, so the persistence task wakes up to save the settings after it, whether or not
  -- anything changed.
  control_cycle_wakes :
      (set_taken : Bool) (loop : Loop) (s : System Float) (n : ℕ)
      → s.mutex ≡ true
      → s.queue ≡ some n
      → persistence_wake (control_cycle fl true set_taken no_gaps loop s).1 ≢ none
  unfolding control_cycle persist_among persist_round snapshot_get take_state_lock
  control_cycle_wakes set_taken loop s n m q =
      let snap = (control_round fl loop s.ctl).snap in
      let (k, e) = persist_round-queue set_taken snap n s q in
      let w = persistence_wake-some k (persist_round fl set_taken snap s) e in ground (arith, w)
