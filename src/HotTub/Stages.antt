-- ===== src/HotTub/Stages.antt =====
-- The stages of a round of the control loop, each by itself: what a stage leaves alone, and what
-- it does when the heater is off.
use esp32_s3_hot_tub_base.Base.{◌≡◌, refl, ◌≢◌, ◌⊎◌, Bool, true, false, arith}
use esp32_s3_hot_tub_base.Base.Int.{pos, is_zero, is_positive}
use esp32_s3_hot_tub_base.Float.Ops.{FloatOps}
use esp32_s3_hot_tub_base.HotTub.State.{HotTub, pump_off, pump_low}
use esp32_s3_hot_tub_base.HotTub.Settings.{verified_run_time}
use esp32_s3_hot_tub_base.HotTub.Control.{
  Loop, Round, count_down, before_control, needs_heat, heat_satisfied, filter_temperature, verify,
  auto_decide, auto_control, after_control, control_round,
}

module _ (fl : FloatOps) where
  open fl use {Float, to_int}

  pub filter-keeps :
      (h : HotTub Float)
      → ((filter_temperature fl h).heater_on ≡ h.heater_on)
        × ((filter_temperature fl h).pump_state ≡ h.pump_state)
        × ((filter_temperature fl h).auto_mode ≡ h.auto_mode)
        × ((filter_temperature fl h).pump_pre_run_time ≡ h.pump_pre_run_time)
        × ((filter_temperature fl h).pump_post_run_time ≡ h.pump_post_run_time)
  unfolding filter_temperature
  filter-keeps h = ground arith

  pub verify-keeps :
      (h : HotTub Float)
      → ((verify fl h).heater_on ≡ h.heater_on)
        × ((verify fl h).pump_state ≡ h.pump_state)
        × ((verify fl h).pump_pre_run_time ≡ verified_run_time fl h.pump_pre_run_time)
        × ((verify fl h).pump_post_run_time ≡ verified_run_time fl h.pump_post_run_time)
  unfolding verify
  verify-keeps h = (refl, refl, refl, refl)

  pub after_control-heater :
      (r : Round Float) → (after_control fl r).snap.heater_on ≡ r.snap.heater_on
  unfolding after_control
  after_control-heater r = ground arith

  pub before_control_effect :
      (loop : Loop) (h : HotTub Float)
      → h.heater_on ≡ false
      → let r = before_control fl loop h in
        (r.snap ≡ filter_temperature fl h)
        × (r.loop.post_pump_timer ≡ count_down loop.post_pump_timer)
        × (r.loop.was_heating ≡ loop.was_heating)
        × (r.loop.auto_started_pump ≡ true
            → (loop.auto_started_pump ≡ true)
              × (r.loop.heat_lockout ≡ loop.heat_lockout)
              × (r.loop.pre_pump_timer ≡ count_down loop.pre_pump_timer))
  unfolding before_control
  before_control_effect loop h off = (ground arith, ground arith, ground arith, ground arith)

  pub auto_decide-start :
      (needs satisfied : Bool) (r : Round Float)
      → r.snap.heater_on ≡ false
      → (auto_decide fl needs satisfied r).snap.heater_on ≡ true
      → (needs ≡ true)
        × (r.snap.pump_state ≢ pump_off)
        × (r.loop.auto_started_pump ≡ true)
        × (r.loop.pre_pump_timer ≡ pos 0)
        × (r.loop.post_pump_timer ≡ pos 0)
        × ((r.loop.heat_lockout ≡ false) ⊎ (satisfied ≡ true))
  unfolding auto_decide
  auto_decide-start needs satisfied r off on = ground arith

  -- With the heater off before and after, the decision keeps the post-run; a task that owns the
  -- pump has either armed the pre-run now or owned it before.
  pub auto_decide-quiet :
      (needs satisfied : Bool) (r : Round Float)
      → r.snap.heater_on ≡ false
      → let q = auto_decide fl needs satisfied r in
        q.snap.heater_on ≡ false
        → (q.loop.was_heating ≡ r.loop.was_heating)
          × (q.loop.post_pump_timer ≡ r.loop.post_pump_timer)
          × (q.snap.pump_post_run_time ≡ r.snap.pump_post_run_time)
          × (q.loop.auto_started_pump ≡ true
              → (q.loop.pre_pump_timer ≡ to_int r.snap.pump_pre_run_time)
                ⊎ ((q.loop.pre_pump_timer ≡ r.loop.pre_pump_timer)
                    × (r.loop.auto_started_pump ≡ true))
                ⊎ (q.loop.pre_pump_timer ≡ pos 0))
  unfolding auto_decide
  auto_decide-quiet needs satisfied r off off' =
      (ground arith, ground arith, ground arith, ground arith)

  pub auto_control-quiet :
      (r : Round Float)
      → r.snap.heater_on ≡ false
      → let q = auto_control fl r in
        q.snap.heater_on ≡ false
        → (q.loop.was_heating ≡ r.loop.was_heating)
          × (q.loop.post_pump_timer ≡ r.loop.post_pump_timer)
          × (q.loop.auto_started_pump ≡ true
              → (q.loop.pre_pump_timer ≡ to_int (verified_run_time fl r.snap.pump_pre_run_time))
                ⊎ ((q.loop.pre_pump_timer ≡ r.loop.pre_pump_timer)
                    × (r.loop.auto_started_pump ≡ true))
                ⊎ (q.loop.pre_pump_timer ≡ pos 0))
  unfolding auto_control
  auto_control-quiet r off off' =
      let r' : Round Float = record r { snap = verify fl r.snap } in
      ground (
        arith,
        verify-keeps r.snap,
        auto_decide-quiet (needs_heat fl r'.snap) (heat_satisfied fl r'.snap) r',
      )

  pub after_control-quiet :
      (r : Round Float)
      → r.snap.heater_on ≡ false
      → r.loop.was_heating ≡ false
      → let q = after_control fl r in
        (q.loop.was_heating ≡ false)
        × (q.loop.post_pump_timer ≡ r.loop.post_pump_timer)
        × (q.loop.pre_pump_timer ≡ r.loop.pre_pump_timer)
        × (q.loop.auto_started_pump ≡ true
            → (r.loop.auto_started_pump ≡ true)
              × ((is_zero r.loop.post_pump_timer ≡ false)
                  ⊎ (is_zero r.loop.pre_pump_timer ≡ false)))
        × (is_positive r.loop.post_pump_timer ≡ true → q.snap.pump_state ≡ pump_low)
  unfolding after_control
  after_control-quiet r off calm =
      (ground arith, ground arith, ground arith, ground arith, ground arith)

  -- A round with the heater off throughout and no falling edge pending.
  pub control_round-quiet :
      (loop : Loop) (h : HotTub Float)
      → h.heater_on ≡ false
      → loop.was_heating ≡ false
      → let q = control_round fl loop h in
        q.snap.heater_on ≡ false
        → (q.loop.was_heating ≡ false)
          × (q.loop.post_pump_timer ≡ count_down loop.post_pump_timer)
          × (q.loop.auto_started_pump ≡ true
              → (is_zero q.loop.post_pump_timer ≡ false)
                ⊎ (q.loop.pre_pump_timer ≡ to_int (verified_run_time fl h.pump_pre_run_time))
                ⊎ ((q.loop.pre_pump_timer ≡ count_down loop.pre_pump_timer)
                    × (loop.auto_started_pump ≡ true)))
          × (is_positive q.loop.post_pump_timer ≡ true → q.snap.pump_state ≡ pump_low)
  unfolding control_round
  control_round-quiet loop h off calm off' =
      let r : Round Float = before_control fl loop h in
      let c : Round Float = auto_control fl r in
      ground (
        arith,
        before_control_effect loop h off,
        auto_control-quiet r,
        after_control-quiet c,
        after_control-heater c,
        filter-keeps h,
      )
