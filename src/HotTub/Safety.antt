-- ===== src/HotTub/Safety.antt =====
-- The interlock of the control loop: no round leaves the heater on with the pump off.
use esp32_s3_hot_tub_base.Base.{
  ◌≡◌, ◌≢◌, ◌∙◌, sym, subst, if◌then◌else◌, ◌⊎◌, inl, inr, Bool, true, Bool-cases, arith,
}
use esp32_s3_hot_tub_base.Esp.{ok, is_ok}
use esp32_s3_hot_tub_base.Float.Ops.{FloatOps}
use esp32_s3_hot_tub_base.HotTub.State.{HotTub, PumpState, pump_off}
use esp32_s3_hot_tub_base.HotTub.Persist.{
  System, snapshot_get, snapshot_set, take_state_lock, save_settings, mark_dirty,
}
use esp32_s3_hot_tub_base.HotTub.StructIo.{set_heater_on, set_pump_state, saved, saved_quietly}
use esp32_s3_hot_tub_base.HotTub.Control.{
  Loop, Round, before_control, needs_heat, heat_satisfied, verify, auto_decide, auto_control,
  after_control, control_round, Gaps, persist_among, control_cycle,
}

-- With the heater on the pump is not off.
abbrev pub Interlocked : {F : Type 0} → HotTub F → Type 0
Interlocked h = h.heater_on ≡ true → h.pump_state ≢ pump_off

before_control-Interlocked :
    (fl : FloatOps) (loop : Loop) (snap : HotTub fl.Float)
    → Interlocked (before_control fl loop snap).snap
unfolding before_control
before_control-Interlocked fl loop snap = ground arith

verify-Interlocked :
    (fl : FloatOps) (h : HotTub fl.Float) → Interlocked h → Interlocked (verify fl h)
unfolding verify
verify-Interlocked fl h i = ground arith

auto_decide-Interlocked :
    (fl : FloatOps) (needs satisfied : Bool) (r : Round fl.Float)
    → Interlocked r.snap
    → Interlocked (auto_decide fl needs satisfied r).snap
unfolding auto_decide
auto_decide-Interlocked fl needs satisfied r h = ground arith

auto_control-Interlocked :
    (fl : FloatOps) (r : Round fl.Float) → Interlocked r.snap → Interlocked (auto_control fl r).snap
unfolding auto_control
auto_control-Interlocked fl r h =
    let r' : Round fl.Float = record r { snap = verify fl r.snap } in
    ground (
      arith,
      auto_decide-Interlocked fl (needs_heat fl r'.snap) (heat_satisfied fl r'.snap) r',
      verify-Interlocked fl r.snap,
    )

after_control-Interlocked :
    (fl : FloatOps) (r : Round fl.Float)
    → Interlocked r.snap
    → Interlocked (after_control fl r).snap
unfolding after_control
after_control-Interlocked fl r h = ground arith

-- Whatever the other tasks and the user wrote before, the snapshot that a round writes never has
-- the heater on with the pump off.
pub control_round-Interlocked :
    (fl : FloatOps) (loop : Loop) (snap : HotTub fl.Float)
    → Interlocked (control_round fl loop snap).snap
unfolding control_round
control_round-Interlocked fl loop snap =
    after_control-Interlocked fl (auto_control fl (before_control fl loop snap)) (
      auto_control-Interlocked fl (before_control fl loop snap)
        (before_control-Interlocked fl loop snap))

-- The mutex is never deleted.
abbrev pub KeepsMutex : {F : Type 0} → Gaps F → Type 0
KeepsMutex {F} g =
    ((s : System F) → (g.after_read s).mutex ≡ s.mutex)
    × ((s : System F) → (g.between s).mutex ≡ s.mutex)
    × ((s : System F) → (g.after_pump s).mutex ≡ s.mutex)

-- No other task changes the heater after the task set it, nor the pump after the task set it.
abbrev pub KeepsHeating : {F : Type 0} → Gaps F → Type 0
KeepsHeating {F} g =
    ((s : System F) → (g.between s).ctl.heater_on ≡ s.ctl.heater_on)
    × ((s : System F) → (g.after_pump s).ctl.heater_on ≡ s.ctl.heater_on)
    × ((s : System F) → (g.after_pump s).ctl.pump_state ≡ s.ctl.pump_state)

module _ {F : Type 0} where
  set_heater_on-keeps :
      (on : Bool) (s : System F)
      → let s' = (set_heater_on on s).0 in (s'.mutex ≡ s.mutex) × (s'.ctl.heater_on ≡ on)
  unfolding set_heater_on saved save_settings mark_dirty
  set_heater_on-keeps on s = ground arith

  set_pump_state-keeps :
      (p : PumpState) (s : System F)
      → let s' = set_pump_state p s in
        (s'.mutex ≡ s.mutex) × (s'.ctl.heater_on ≡ s.ctl.heater_on) × (s'.ctl.pump_state ≡ p)
  unfolding set_pump_state saved_quietly save_settings mark_dirty
  set_pump_state-keeps p s = ground arith

persist_among-Interlocked :
    (fl : FloatOps) (taken : Bool) (g : Gaps fl.Float) (snap : HotTub fl.Float)
    (s : System fl.Float)
    → s.mutex ≡ true
    → KeepsMutex g
    → (taken ≡ true) ⊎ KeepsHeating g
    → Interlocked snap
    → Interlocked (persist_among fl taken g snap s).ctl
unfolding persist_among snapshot_set take_state_lock
persist_among-Interlocked fl taken g snap s m mutex alone safe =
    let s0 = g.after_read s in
    let s1 = (set_heater_on snap.heater_on s0).0 in
    let s2 = g.between s1 in
    let s3 = set_pump_state snap.pump_state s2 in
    let h = set_heater_on-keeps snap.heater_on s0 in
    let p = set_pump_state-keeps snap.pump_state s2 in
    let there : (g.after_pump s3).mutex ≡ true =
      mutex.2 s3 ∙ p.0 ∙ mutex.1 s1 ∙ h.0 ∙ mutex.0 s ∙ m in
    elim (Bool-cases taken) [
      | inl e ↦ rw there (rw e safe)
      | inr e ↦
          let kept : KeepsHeating g = elim alone [ inl t ↦ absurd (ground arith) | inr k ↦ k ] in
          let heater : (g.after_pump s3).ctl.heater_on ≡ snap.heater_on =
            kept.1 s3 ∙ p.1 ∙ kept.0 s1 ∙ h.1 in
          let pump : (g.after_pump s3).ctl.pump_state ≡ snap.pump_state = kept.2 s3 ∙ p.2 in
          rw there (rw e (λ on off. safe (sym heater ∙ on) (sym pump ∙ off)))
    ]

snapshot_get-ok :
    {F : Type 0} (buffer : HotTub F) (s : System F)
    → s.mutex ≡ true
    → snapshot_get true buffer s ≡ (ok, s.ctl)
unfolding snapshot_get take_state_lock
snapshot_get-ok buffer s m = ground arith

-- With the mutex created and never deleted, a cycle that gets its snapshot leaves the shared state
-- without heater on and pump off together, whatever the other tasks do between its steps, if the lock for writing the
-- snapshot is had; and if it is not had in time, when no other task changes the heater after the
-- cycle set it, nor the pump after the cycle set it.
pub control_cycle-Interlocked :
    (fl : FloatOps) (set_taken : Bool) (g : Gaps fl.Float) (loop : Loop) (s : System fl.Float)
    → s.mutex ≡ true
    → KeepsMutex g
    → (set_taken ≡ true) ⊎ KeepsHeating g
    → Interlocked (control_cycle fl true set_taken g loop s).1.ctl
unfolding control_cycle
control_cycle-Interlocked fl set_taken g loop s m mutex alone =
    let safe =
      persist_among-Interlocked fl set_taken g (control_round fl loop s.ctl).snap s m mutex alone
        (control_round-Interlocked fl loop s.ctl) in
    subst
      (λ r.
        let q = control_round fl loop r.1 in
        let e : Loop × System fl.Float =
          if is_ok r.0 then (q.loop, persist_among fl set_taken g q.snap s) else (loop, s) in
        Interlocked e.1.ctl)
      (sym (snapshot_get-ok s.ctl s m)) safe
