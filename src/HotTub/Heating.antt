-- ===== src/HotTub/Heating.antt =====
-- When the control loop turns the heater on.
use esp32_s3_hot_tub_base.Base.{
  ◌∙◌, ap, ◌≡◌, ◌≢◌, ◌⊎◌, ◌≤◌, ℕ, suc, true, false, List, [], ◌∷◌, length, All, inl, inr,
  Bool-cases, arith,
}
use esp32_s3_hot_tub_base.Base.Int.{pos, ◌≤ℤ◌}
use esp32_s3_hot_tub_base.Float.Ops.{FloatOps}
use esp32_s3_hot_tub_base.HotTub.State.{HotTub, pump_off}
use esp32_s3_hot_tub_base.HotTub.Settings.{verified_run_time}
use esp32_s3_hot_tub_base.HotTub.Control.{
  Loop, Round, count_down, before_control, needs_heat, heat_satisfied, filter_temperature, verify,
  auto_control, control_round, run_rounds,
}
use esp32_s3_hot_tub_base.HotTub.Stages.{
  filter-keeps, verify-keeps, after_control-heater, before_control_effect, auto_decide-start,
  control_round-quiet,
}

module _ (fl : FloatOps) where
  open fl use {Float, to_int}

  -- The snapshot that the two temperature tests read.
  abbrev pub tested : HotTub Float → HotTub Float
  tested h = verify fl (filter_temperature fl h)

  -- The stages by themselves.
  auto_control-start :
      (r : Round Float)
      → r.snap.heater_on ≡ false
      → (auto_control fl r).snap.heater_on ≡ true
      → (r.snap.auto_mode ≡ true)
        × (needs_heat fl (verify fl r.snap) ≡ true)
        × (r.snap.pump_state ≢ pump_off)
        × (r.loop.auto_started_pump ≡ true)
        × (r.loop.pre_pump_timer ≡ pos 0)
        × (r.loop.post_pump_timer ≡ pos 0)
        × ((r.loop.heat_lockout ≡ false) ⊎ (heat_satisfied fl (verify fl r.snap) ≡ true))
  unfolding auto_control
  auto_control-start r off on =
      let r' : Round Float = record r { snap = verify fl r.snap } in
      ground (
        arith,
        verify-keeps fl r.snap,
        auto_decide-start fl (needs_heat fl r'.snap) (heat_satisfied fl r'.snap) r',
      )

  -- If a round turns the heater on, then auto mode was on and the temperature asked for heat, the
  -- pump was running under the task's control, both delays had run out, and heating was not locked
  -- out unless the target was reached in this round.
  pub heater_start_needs :
      (loop : Loop) (h : HotTub Float)
      → h.heater_on ≡ false
      → (control_round fl loop h).snap.heater_on ≡ true
      → (h.auto_mode ≡ true)
        × (needs_heat fl (tested h) ≡ true)
        × (h.pump_state ≢ pump_off)
        × (loop.auto_started_pump ≡ true)
        × (count_down loop.pre_pump_timer ≡ pos 0)
        × (count_down loop.post_pump_timer ≡ pos 0)
        × ((loop.heat_lockout ≡ false) ⊎ (heat_satisfied fl (tested h) ≡ true))
  unfolding control_round
  heater_start_needs loop h off on =
      let r : Round Float = before_control fl loop h in
      ground (
        arith,
        before_control_effect fl loop h off,
        auto_control-start r,
        after_control-heater fl (auto_control fl r),
        filter-keeps fl h,
      )

  pub heater_stays_off :
      (loop : Loop) (h : HotTub Float)
      → h.heater_on ≡ false
      → ((loop.auto_started_pump ≡ true)
          → count_down loop.pre_pump_timer ≡ pos 0
          → count_down loop.post_pump_timer ≢ pos 0)
      → (control_round fl loop h).snap.heater_on ≡ false
  heater_stays_off loop h off busy = elim (Bool-cases (control_round fl loop h).snap.heater_on) [
    | inl on ↦ ground (arith, heater_start_needs loop h off on)
    | inr off' ↦ off'
  ]

  -- A snapshot as the task reads it: the heater off, and a pre-run of at least `p` seconds.
  abbrev pub AwaitsPreRun : ℕ → HotTub Float → Type 0
  AwaitsPreRun p h =
      (h.heater_on ≡ false) × (pos p ≤ℤ to_int (verified_run_time fl h.pump_pre_run_time))

  waits_rounds :
      (p : ℕ) (loop : Loop) (hs : List (HotTub Float))
      → loop.was_heating ≡ false
      → loop.post_pump_timer ≡ pos 0
      → (loop.auto_started_pump ≡ true → pos (suc (length hs)) ≤ℤ loop.pre_pump_timer)
      → All (AwaitsPreRun p) hs
      → length hs ≤ p
      → All (λ h. h.heater_on ≡ false) (run_rounds fl loop hs).1
  unfolding run_rounds
  waits_rounds p loop [] calm post armed reads few = tt
  waits_rounds p loop (h ∷ hs) calm post armed reads few =
      let r : Round Float = control_round fl loop h in
      let off : r.snap.heater_on ≡ false =
        heater_stays_off loop h reads.0.0 (λ own zero. absurd (ground (arith, armed own))) in
      let q = control_round-quiet fl loop h reads.0.0 calm off in
      (
        off,
        waits_rounds p r.loop hs q.0 (q.1 ∙ ap count_down post)
            (λ own. ground (arith, q.2 own, armed, q.1)) reads.1 (omega arith),
      )

  -- From a loop at rest, whatever the readings and the user's changes to mode, pump and settings,
  -- the heater stays off for the first `p` rounds, if each pre-run time read is at least `p`
  -- seconds after the check and nobody else sets the heater on.
  pub pre_run_respected :
      (p : ℕ) (loop : Loop) (hs : List (HotTub Float))
      → loop.auto_started_pump ≡ false
      → loop.was_heating ≡ false
      → loop.post_pump_timer ≡ pos 0
      → All (AwaitsPreRun p) hs
      → length hs ≤ p
      → All (λ h. h.heater_on ≡ false) (run_rounds fl loop hs).1
  pre_run_respected p loop hs free calm post reads few =
      waits_rounds p loop hs calm post (λ own. absurd (ground arith)) reads few
