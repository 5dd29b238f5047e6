-- ===== src/HotTub/PostRun.antt =====
-- The post-run of the pump: what follows when the heater goes off.
use esp32_s3_hot_tub_base.Base.{
  ◌∙◌, ap, ◌≡◌, ◌<◌, ◌-◌, ℕ, Bool, true, false, List, [], ◌∷◌, length, All, if◌then◌else◌, arith,
}
use esp32_s3_hot_tub_base.Base.Int.{ℤ, pos, negsuc, is_positive}
use esp32_s3_hot_tub_base.Float.Ops.{FloatOps}
use esp32_s3_hot_tub_base.HotTub.State.{HotTub, pump_low}
use esp32_s3_hot_tub_base.HotTub.Settings.{verified_run_time}
use esp32_s3_hot_tub_base.HotTub.Control.{
  Loop, Round, count_down, before_control, auto_decide, auto_control, after_control, verify,
  needs_heat, heat_satisfied, control_round, run_rounds,
}
use esp32_s3_hot_tub_base.HotTub.Stages.{verify-keeps, after_control-heater, control_round-quiet}
use esp32_s3_hot_tub_base.HotTub.Heating.{heater_stays_off}

module _ (fl : FloatOps) where
  open fl use {Float, to_int}

  -- `(int)snapshot.pumpPostRunTime` where the falling edge is detected: checked in auto mode only.
  abbrev pub post_run : HotTub Float → ℤ
  post_run h =
      to_int
        (if h.auto_mode then verified_run_time fl h.pump_post_run_time else h.pump_post_run_time)

  pub before_control-was_heating :
      (loop : Loop) (h : HotTub Float)
      → let r = before_control fl loop h in
        (r.loop.was_heating ≡ loop.was_heating)
        × (r.snap.auto_mode ≡ h.auto_mode)
        × (r.snap.pump_post_run_time ≡ h.pump_post_run_time)
  unfolding before_control
  before_control-was_heating loop h = (ground arith, ground arith, ground arith)

  auto_decide-was_heating :
      (needs satisfied : Bool) (r : Round Float)
      → let q = auto_decide fl needs satisfied r in
        (q.loop.was_heating ≡ r.loop.was_heating)
        × (q.snap.pump_post_run_time ≡ r.snap.pump_post_run_time)
  unfolding auto_decide
  auto_decide-was_heating needs satisfied r = (ground arith, ground arith)

  pub auto_control-was_heating :
      (r : Round Float)
      → let q = auto_control fl r in
        (q.loop.was_heating ≡ r.loop.was_heating)
        × (to_int q.snap.pump_post_run_time ≡ post_run r.snap)
  unfolding auto_control
  auto_control-was_heating r =
      let r' : Round Float = record r { snap = verify fl r.snap } in
      let e = auto_decide-was_heating (needs_heat fl r'.snap) (heat_satisfied fl r'.snap) r' in
      (ground (arith, e), ground (arith, e, verify-keeps fl r.snap))

  after_control-fell :
      (r : Round Float)
      → r.snap.heater_on ≡ false
      → r.loop.was_heating ≡ true
      → let q = after_control fl r in
        (q.loop.was_heating ≡ false)
        × (q.loop.post_pump_timer ≡ to_int r.snap.pump_post_run_time)
        × (q.loop.pre_pump_timer ≡ pos 0)
        × (is_positive q.loop.post_pump_timer ≡ true → q.snap.pump_state ≡ pump_low)
  unfolding after_control
  after_control-fell r off was = (ground arith, ground arith, ground arith, ground arith)

  -- The round in which the heater goes off arms the post-run.
  pub control_round-fell :
      (loop : Loop) (h : HotTub Float)
      → loop.was_heating ≡ true
      → let q = control_round fl loop h in
        q.snap.heater_on ≡ false
        → (q.loop.was_heating ≡ false)
          × (q.loop.post_pump_timer ≡ post_run h)
          × (q.loop.pre_pump_timer ≡ pos 0)
          × (is_positive q.loop.post_pump_timer ≡ true → q.snap.pump_state ≡ pump_low)
  unfolding control_round
  control_round-fell loop h was off =
      let r : Round Float = before_control fl loop h in
      let c : Round Float = auto_control fl r in
      ground (
        arith,
        before_control-was_heating loop h,
        auto_control-was_heating r,
        after_control-heater fl c,
        after_control-fell c,
      )

  abbrev pub PumpLow : HotTub Float → Type 0
  PumpLow h = (h.heater_on ≡ false) × (h.pump_state ≡ pump_low)

  post_run_rounds :
      (n : ℕ) (loop : Loop) (hs : List (HotTub Float))
      → loop.was_heating ≡ false
      → loop.post_pump_timer ≡ pos n
      → length hs < n
      → All (λ h. h.heater_on ≡ false) hs
      → All PumpLow (run_rounds fl loop hs).1
  unfolding run_rounds
  post_run_rounds n loop [] calm post few reads = tt
  post_run_rounds n loop (h ∷ hs) calm post few reads =
      let r : Round Float = control_round fl loop h in
      let off : r.snap.heater_on ≡ false =
        heater_stays_off fl loop h reads.0 (λ own zero. ground arith) in
      let q = control_round-quiet fl loop h reads.0 calm off in
      let left : r.loop.post_pump_timer ≡ pos (n - 1) = ground (arith, q.1) in
      (
        (off, q.3 (ground (arith, left))),
        post_run_rounds (n - 1) r.loop hs q.0 left (omega arith) reads.1,
      )

  -- After the round in which the heater goes off the pump runs on low, heater off, in that round
  -- and in the rounds after it until the post-run time has passed, whatever the user does to the
  -- pump, the mode and the settings, if nobody else sets the heater on.
  pub post_run_respected :
      (n : ℕ) (loop : Loop) (h : HotTub Float) (hs : List (HotTub Float))
      → loop.was_heating ≡ true
      → (control_round fl loop h).snap.heater_on ≡ false
      → post_run h ≡ pos n
      → length hs < n
      → All (λ k. k.heater_on ≡ false) hs
      → All PumpLow (run_rounds fl loop (h ∷ hs)).1
  unfolding run_rounds
  post_run_respected n loop h hs was off time few reads =
      let r : Round Float = control_round fl loop h in
      let q = control_round-fell loop h was off in
      (
        (off, q.3 (ground (arith, q.1, time))),
        post_run_rounds n r.loop hs q.0 (q.1 ∙ time) few reads,
      )

  negative_rounds :
      (n : ℕ) (loop : Loop) (hs : List (HotTub Float))
      → loop.was_heating ≡ false
      → loop.post_pump_timer ≡ negsuc n
      → All (λ h. h.heater_on ≡ false) hs
      → All (λ h. h.heater_on ≡ false) (run_rounds fl loop hs).1
        × ((run_rounds fl loop hs).0.post_pump_timer ≡ negsuc n)
  unfolding run_rounds
  negative_rounds n loop [] calm post reads = (tt, post)
  negative_rounds n loop (h ∷ hs) calm post reads =
      let r : Round Float = control_round fl loop h in
      let off : r.snap.heater_on ≡ false =
        heater_stays_off fl loop h reads.0 (λ own zero. ground arith) in
      let q = control_round-quiet fl loop h reads.0 calm off in
      let rest = negative_rounds n r.loop hs q.0 (q.1 ∙ ap count_down post) reads.1 in
      ((off, rest.0), rest.1)

  auto_mode_off-heater :
      (r : Round Float) → r.snap.auto_mode ≡ false → (auto_control fl r).snap.heater_on ≡ false
  unfolding auto_control
  auto_mode_off-heater r manual = ground arith

  -- Out of auto mode a round leaves the heater off.
  pub manual_mode-heater :
      (loop : Loop) (h : HotTub Float)
      → h.auto_mode ≡ false
      → (control_round fl loop h).snap.heater_on ≡ false
  unfolding control_round
  manual_mode-heater loop h manual =
      let r : Round Float = before_control fl loop h in
      ground (
        arith,
        before_control-was_heating loop h,
        auto_mode_off-heater r,
        after_control-heater fl (auto_control fl r),
      )

  -- If the heater was on and a round finds auto mode off and a negative post-run time (such a time
  -- is checked in auto mode only), the heater goes off, the timer is negative for ever and the task never
  -- turns the heater on again, however long it runs and whatever it reads.
  pub negative_post_run_blocks :
      (n : ℕ) (loop : Loop) (h : HotTub Float) (hs : List (HotTub Float))
      → loop.was_heating ≡ true
      → h.auto_mode ≡ false
      → to_int h.pump_post_run_time ≡ negsuc n
      → All (λ k. k.heater_on ≡ false) hs
      → All (λ k. k.heater_on ≡ false) (run_rounds fl loop (h ∷ hs)).1
        × ((run_rounds fl loop (h ∷ hs)).0.post_pump_timer ≡ negsuc n)
  unfolding run_rounds
  negative_post_run_blocks n loop h hs was manual time reads =
      let r : Round Float = control_round fl loop h in
      let off = manual_mode-heater loop h manual in
      let q = control_round-fell loop h was off in
      let rest = negative_rounds n r.loop hs q.0 (ground (arith, q.1, time)) reads in
      ((off, rest.0), rest.1)
