-- ===== src/HotTub/Bounds.antt =====
-- The settings' limits after the check, and the range of the two timers.
use esp32_s3_hot_tub_base.Base.{
  ◌≡◌, ◌⊎◌, inl, inr, Bool, true, false, List, [], ◌∷◌, All, Bool-cases, arith,
}
use esp32_s3_hot_tub_base.Base.Int.{ℤ, pos, ◌≤ℤ◌}
use esp32_s3_hot_tub_base.Float.Ops.{FloatOps, FloatLaws}
use esp32_s3_hot_tub_base.HotTub.State.{HotTub}
use esp32_s3_hot_tub_base.HotTub.Settings.{outside, verified_run_time}
use esp32_s3_hot_tub_base.HotTub.Control.{
  Loop, Round, before_control, needs_heat, heat_satisfied, verify, auto_decide, auto_control,
  after_control, control_round, run_rounds,
}
use esp32_s3_hot_tub_base.HotTub.Stages.{verify-keeps}
use esp32_s3_hot_tub_base.HotTub.PostRun.{
  post_run, before_control-was_heating, auto_control-was_heating,
}

-- A timer between 0 and 20 seconds.
abbrev pub InRange : ℤ → Type 0
InRange t = (pos 0 ≤ℤ t) × (t ≤ℤ pos 20)

abbrev pub TimersInRange : Loop → Type 0
TimersInRange loop = InRange loop.pre_pump_timer × InRange loop.post_pump_timer

module _ (fl : FloatOps) (laws : FloatLaws fl) where
  open fl use {Float, double_lit, is_nan, to_int}

  run_time-InRange :
      (x : Float)
      → is_nan x ≡ false
      → outside fl x (double_lit 1 0) (double_lit 20 0) ≡ false
      → (pos 1 ≤ℤ to_int x) × (to_int x ≤ℤ pos 20)
  unfolding outside
  run_time-InRange x number inside = ground (arith, laws.to_int_between x 1 20 (omega arith) number)

  -- After the check a run time is, in whole seconds, from 1 to 20, unless it was not a number.
  pub verified_run_time-InRange :
      (x : Float)
      → is_nan x ≡ false
      → (pos 1 ≤ℤ to_int (verified_run_time fl x)) × (to_int (verified_run_time fl x) ≤ℤ pos 20)
  unfolding verified_run_time
  verified_run_time-InRange x number =
      elim (Bool-cases (outside fl x (double_lit 1 0) (double_lit 20 0))) [
        | inl out ↦ ground (arith, out, laws.to_int-lit 2 (omega arith))
        | inr inside ↦ ground (arith, run_time-InRange x number inside)
      ]

  auto_decide-timers :
      (needs satisfied : Bool) (r : Round Float)
      → TimersInRange r.loop
      → InRange (to_int r.snap.pump_pre_run_time)
      → TimersInRange (auto_decide fl needs satisfied r).loop
  unfolding auto_decide
  auto_decide-timers needs satisfied r t p = ground arith

  before_control-timers :
      (loop : Loop) (h : HotTub Float)
      → TimersInRange loop
      → let r = before_control fl loop h in
        TimersInRange r.loop × (r.snap.pump_pre_run_time ≡ h.pump_pre_run_time)
  unfolding before_control
  before_control-timers loop h t = (ground arith, ground arith)

  auto_control-timers :
      (r : Round Float)
      → TimersInRange r.loop
      → is_nan r.snap.pump_pre_run_time ≡ false
      → TimersInRange (auto_control fl r).loop
  unfolding auto_control
  auto_control-timers r t number =
      let r' : Round Float = record r { snap = verify fl r.snap } in
      ground (
        arith,
        verify-keeps fl r.snap,
        verified_run_time-InRange r.snap.pump_pre_run_time number,
        auto_decide-timers (needs_heat fl r'.snap) (heat_satisfied fl r'.snap) r',
      )

  after_control-timers :
      (r : Round Float)
      → TimersInRange r.loop
      → InRange (to_int r.snap.pump_post_run_time)
      → TimersInRange (after_control fl r).loop
  unfolding after_control
  after_control-timers r t p = ground arith

  -- A snapshot whose run times are numbers, the post-run time checked by auto mode or in its range.
  abbrev pub SoundTimes : HotTub Float → Type 0
  SoundTimes h =
      (is_nan h.pump_pre_run_time ≡ false)
      × (is_nan h.pump_post_run_time ≡ false)
      × ((h.auto_mode ≡ true)
          ⊎ (outside fl h.pump_post_run_time (double_lit 1 0) (double_lit 20 0) ≡ false))

  post_run-InRange : (h : HotTub Float) → SoundTimes h → InRange (post_run fl h)
  post_run-InRange h (_, number, inl auto) =
      ground (arith, verified_run_time-InRange h.pump_post_run_time number)
  post_run-InRange h (_, number, inr inside) = ground (
    arith,
    verified_run_time-InRange h.pump_post_run_time number,
    run_time-InRange h.pump_post_run_time number inside,
  )

  control_round-timers :
      (loop : Loop) (h : HotTub Float)
      → TimersInRange loop
      → SoundTimes h
      → TimersInRange (control_round fl loop h).loop
  unfolding control_round
  control_round-timers loop h t sound =
      let r : Round Float = before_control fl loop h in
      let b = before_control-timers loop h t in
      after_control-timers (auto_control fl r)
        (auto_control-timers r b.0 (ground (arith, b.1, sound.0)))
        (ground (
          arith,
          before_control-was_heating fl loop h,
          auto_control-was_heating fl r,
          post_run-InRange h sound,
        ))

  -- The two timers stay from 0 to 20 seconds through any rounds, if every snapshot read has
  -- numbers for its run times and its post-run time is in range or checked by auto mode.
  pub run_rounds-timers :
      (loop : Loop) (hs : List (HotTub Float))
      → TimersInRange loop
      → All SoundTimes hs
      → TimersInRange (run_rounds fl loop hs).0
  unfolding run_rounds
  run_rounds-timers loop [] t sound = t
  run_rounds-timers loop (h ∷ hs) t sound =
      run_rounds-timers (control_round fl loop h).loop hs (control_round-timers loop h t sound.0)
        sound.1
