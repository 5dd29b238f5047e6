-- ===== src/HotTub/Manual.antt =====
-- Commands that the control loop overrides or does not look at.
use esp32_s3_hot_tub_base.Base.{
  ◌∙◌, ap, ◌≡◌, refl, ◌≢◌, Bool, true, false, ℕ, suc, List, ◌∷◌, All, arith,
}
use esp32_s3_hot_tub_base.Base.Int.{pos}
use esp32_s3_hot_tub_base.Float.Ops.{FloatOps}
use esp32_s3_hot_tub_base.HotTub.State.{HotTub, pump_off, pump_low}
use esp32_s3_hot_tub_base.HotTub.Control.{
  Loop, Round, count_down, before_control, auto_decide, auto_control, after_control, verify,
  filter_temperature, needs_heat, heat_satisfied, control_round, run_rounds,
}
use esp32_s3_hot_tub_base.HotTub.Stages.{filter-keeps, verify-keeps, after_control-heater}
use esp32_s3_hot_tub_base.HotTub.Heating.{tested}
use esp32_s3_hot_tub_base.HotTub.PostRun.{post_run, control_round-fell}
use esp32_s3_hot_tub_base.HotTub.Lockout.{StillCold, PumpStopped, stopped_round, left_running}

module _ (fl : FloatOps) where
  open fl use {Float, to_int}

  -- A pump that is turned off by hand during heating comes on again on low for the post-run, and the
  -- task does not turn it off in any number of later rounds that read the heater off (nobody else turns
  -- it on), auto mode on and the pump on low, and do not find the target passed.
  pub pump_stop_leaves_pump_on :
      (n : ℕ) (loop : Loop) (h : HotTub Float) (hs : List (HotTub Float))
      → loop.was_heating ≡ true
      → PumpStopped fl h
      → post_run fl h ≡ pos (suc n)
      → All (λ k. StillCold fl k × (k.pump_state ≡ pump_low)) hs
      → All (λ k. k.pump_state ≡ pump_low) (run_rounds fl loop (h ∷ hs)).1
  unfolding run_rounds
  pump_stop_leaves_pump_on n loop h hs was stopped time cold =
      let q = stopped_round fl loop h stopped in
      let f = control_round-fell fl loop h was q.0 in
      (
        q.3 (ground (arith, f.1, time)),
        left_running fl (control_round fl loop h).loop hs q.1 q.2 cold,
      )

  auto_decide-starts :
      (satisfied : Bool) (r : Round Float)
      → r.snap.pump_state ≢ pump_off
      → r.loop.auto_started_pump ≡ true
      → r.loop.pre_pump_timer ≡ pos 0
      → r.loop.post_pump_timer ≡ pos 0
      → r.loop.heat_lockout ≡ false
      → (auto_decide fl true satisfied r).snap.heater_on ≡ true
  unfolding auto_decide
  auto_decide-starts satisfied r running own pre post free = ground arith

  pub before_control-running :
      (loop : Loop) (h : HotTub Float)
      → h.pump_state ≢ pump_off
      → let r = before_control fl loop h in
        (r.snap ≡ filter_temperature fl h)
        × (r.loop ≡ record loop {
          pre_pump_timer = count_down loop.pre_pump_timer;
          post_pump_timer = count_down loop.post_pump_timer;
        })
  unfolding before_control
  before_control-running loop h running = (ground arith, ground arith)

  auto_control-starts :
      (r : Round Float)
      → r.snap.auto_mode ≡ true
      → needs_heat fl (verify fl r.snap) ≡ true
      → r.snap.pump_state ≢ pump_off
      → r.loop.auto_started_pump ≡ true
      → r.loop.pre_pump_timer ≡ pos 0
      → r.loop.post_pump_timer ≡ pos 0
      → r.loop.heat_lockout ≡ false
      → (auto_control fl r).snap.heater_on ≡ true
  unfolding auto_control
  auto_control-starts r auto cold running own pre post free =
      let r' : Round Float = record r { snap = verify fl r.snap } in
      ground (arith, verify-keeps fl r.snap, auto_decide-starts (heat_satisfied fl r'.snap) r')

  -- A heater that the user turns off in auto mode while the temperature still asks for heat, with
  -- the task owning a running pump, both delays over and no lockout, is on again at the end of the
  -- same round.
  pub heater_stop_undone :
      (loop : Loop) (h : HotTub Float)
      → h.heater_on ≡ false
      → h.auto_mode ≡ true
      → needs_heat fl (tested fl h) ≡ true
      → h.pump_state ≢ pump_off
      → loop.auto_started_pump ≡ true
      → count_down loop.pre_pump_timer ≡ pos 0
      → count_down loop.post_pump_timer ≡ pos 0
      → loop.heat_lockout ≡ false
      → (control_round fl loop h).snap.heater_on ≡ true
  unfolding control_round
  heater_stop_undone loop h off auto cold running own pre post free =
      let r : Round Float = before_control fl loop h in
      ground (
        arith,
        before_control-running loop h running,
        auto_control-starts r,
        after_control-heater fl (auto_control fl r),
        filter-keeps fl h,
      )

  auto_decide-stays :
      (needs : Bool) (r : Round Float)
      → r.snap.heater_on ≡ true
      → (auto_decide fl needs false r).snap.heater_on ≡ true
  unfolding auto_decide
  auto_decide-stays needs r on = ground arith

  auto_control-stays :
      (r : Round Float)
      → r.snap.auto_mode ≡ true
      → r.snap.heater_on ≡ true
      → heat_satisfied fl (verify fl r.snap) ≡ false
      → (auto_control fl r).snap.heater_on ≡ true
  unfolding auto_control
  auto_control-stays r auto on cold =
      let r' : Round Float = record r { snap = verify fl r.snap } in
      ground (arith, verify-keeps fl r.snap, auto_decide-stays (needs_heat fl r'.snap) r')

  -- A heater that the user turns on in auto mode while the pump runs stays on until the target is
  -- passed, whatever is left of the pre-run, the post-run or a lockout.
  pub heater_start_unchecked :
      (loop : Loop) (h : HotTub Float)
      → h.heater_on ≡ true
      → h.auto_mode ≡ true
      → h.pump_state ≢ pump_off
      → heat_satisfied fl (tested fl h) ≡ false
      → (control_round fl loop h).snap.heater_on ≡ true
  unfolding control_round
  heater_start_unchecked loop h on auto running cold =
      let r : Round Float = before_control fl loop h in
      ground (
        arith,
        before_control-running loop h running,
        auto_control-stays r,
        after_control-heater fl (auto_control fl r),
        filter-keeps fl h,
      )

  -- The snapshot of a round with another safety switch and another filter setting.
  abbrev pub changed : Bool → Float → Round Float → Round Float
  changed b x r = record r {
    snap = record (r.snap) { safety_switch = b; low_pass_filter_alpha = x };
  }

  before_control-changed :
      (b : Bool) (x : Float) (loop : Loop) (h : HotTub Float)
      → before_control fl loop (record h { safety_switch = b; low_pass_filter_alpha = x })
        ≡ changed b x (before_control fl loop h)
  unfolding before_control
  before_control-changed b x loop h = ground arith

  auto_decide-changed :
      (b : Bool) (x : Float) (needs satisfied : Bool) (r : Round Float)
      → auto_decide fl needs satisfied (changed b x r)
        ≡ changed b x (auto_decide fl needs satisfied r)
  unfolding auto_decide
  auto_decide-changed b x needs satisfied r = ground arith

  verify-changed :
      (b : Bool) (x : Float) (h : HotTub Float)
      → verify fl (record h { safety_switch = b; low_pass_filter_alpha = x })
        ≡ record (verify fl h) { safety_switch = b; low_pass_filter_alpha = x }
  unfolding verify
  verify-changed b x h = refl

  auto_control-changed :
      (b : Bool) (x : Float) (r : Round Float)
      → auto_control fl (changed b x r) ≡ changed b x (auto_control fl r)
  unfolding auto_control
  auto_control-changed b x r =
      let r' : Round Float = record r { snap = verify fl r.snap } in
      ground (
        arith,
        verify-changed b x r.snap,
        auto_decide-changed b x (needs_heat fl r'.snap) (heat_satisfied fl r'.snap) r',
      )

  after_control-changed :
      (b : Bool) (x : Float) (r : Round Float)
      → after_control fl (changed b x r) ≡ changed b x (after_control fl r)
  unfolding after_control
  after_control-changed b x r = ground arith

  -- The safety switch and the low-pass filter setting change nothing in a round: with both set
  -- differently the loop's variables and every other field written, the heater, the pump and the
  -- filtered temperature among them, are the same.
  pub settings_ignored :
      (b : Bool) (x : Float) (loop : Loop) (h : HotTub Float)
      → control_round fl loop (record h { safety_switch = b; low_pass_filter_alpha = x })
        ≡ changed b x (control_round fl loop h)
  unfolding control_round
  settings_ignored b x loop h =
      ap (λ r. after_control fl (auto_control fl r)) (before_control-changed b x loop h)
      ∙ ap (after_control fl) (auto_control-changed b x (before_control fl loop h))
      ∙ after_control-changed b x (auto_control fl (before_control fl loop h))
