-- ===== src/HotTub/Lockout.antt =====
-- What the user's own switching of the pump and the heater does to the control loop.
use esp32_s3_hot_tub_base.Base.{◌≡◌, refl, ◌⊎◌, inl, Bool, true, false, List, [], ◌∷◌, All, arith}
use esp32_s3_hot_tub_base.Base.Int.{pos, is_positive}
use esp32_s3_hot_tub_base.Float.Ops.{FloatOps}
use esp32_s3_hot_tub_base.HotTub.State.{HotTub, pump_off, pump_low}
use esp32_s3_hot_tub_base.HotTub.Control.{
  Loop, Round, count_down, before_control, auto_decide, auto_control, after_control, verify,
  filter_temperature, needs_heat, heat_satisfied, control_round, run_rounds,
}
use esp32_s3_hot_tub_base.HotTub.Stages.{filter-keeps, verify-keeps, after_control-heater}
use esp32_s3_hot_tub_base.HotTub.Heating.{tested}

module _ (fl : FloatOps) where
  open fl use {Float, to_int}

  before_control-override :
      (loop : Loop) (h : HotTub Float)
      → h.pump_state ≡ pump_off
      → (h.heater_on ≡ true) ⊎ (is_positive (count_down loop.pre_pump_timer) ≡ true)
      → let r = before_control fl loop h in
        (r.loop ≡ record {
          auto_started_pump = false;
          was_heating = loop.was_heating;
          heat_lockout = true;
          pre_pump_timer = pos 0;
          post_pump_timer = count_down loop.post_pump_timer;
        })
        × (r.snap ≡ record (filter_temperature fl h) { heater_on = false })
  unfolding before_control filter_temperature
  before_control-override loop h off busy = (ground arith, ground arith)

  auto_decide-locked :
      (needs : Bool) (r : Round Float)
      → r.loop.heat_lockout ≡ true
      → auto_decide fl needs false r ≡ r
  unfolding auto_decide
  auto_decide-locked needs r locked = ground arith

  auto_control-locked :
      (r : Round Float)
      → r.snap.auto_mode ≡ true
      → r.loop.heat_lockout ≡ true
      → heat_satisfied fl (verify fl r.snap) ≡ false
      → auto_control fl r ≡ record r { snap = verify fl r.snap }
  unfolding auto_control
  auto_control-locked r auto locked cold =
      let r' : Round Float = record r { snap = verify fl r.snap } in
      ground (arith, auto_decide-locked (needs_heat fl r'.snap) r')

  after_control-keeps :
      (r : Round Float)
      → let q = after_control fl r in
        (q.loop.heat_lockout ≡ r.loop.heat_lockout)
        × (r.loop.auto_started_pump ≡ false → q.loop.auto_started_pump ≡ false)
        × (r.loop.auto_started_pump ≡ false
            → (r.snap.pump_state ≡ pump_low) ⊎ (is_positive q.loop.post_pump_timer ≡ true)
            → q.snap.pump_state ≡ pump_low)
        × (q.loop.was_heating ≡ r.snap.heater_on)
  unfolding after_control
  after_control-keeps r = (ground arith, ground arith, ground arith, ground arith)

  before_control-locked :
      (loop : Loop) (h : HotTub Float)
      → loop.heat_lockout ≡ true
      → h.heater_on ≡ false
      → let r = before_control fl loop h in
        (r.loop.heat_lockout ≡ true)
        × (r.snap ≡ filter_temperature fl h)
        × (loop.auto_started_pump ≡ false → r.loop.auto_started_pump ≡ false)
        × (r.loop.was_heating ≡ loop.was_heating)
  unfolding before_control
  before_control-locked loop h locked off = (ground arith, ground arith, ground arith, ground arith)

  -- A snapshot in auto mode whose temperature is not above the target, the heater off.
  abbrev pub StillCold : HotTub Float → Type 0
  StillCold h =
      (h.auto_mode ≡ true) × (h.heater_on ≡ false) × (heat_satisfied fl (tested fl h) ≡ false)

  locked_round :
      (loop : Loop) (h : HotTub Float)
      → loop.heat_lockout ≡ true
      → StillCold h
      → let q = control_round fl loop h in
        (q.snap.heater_on ≡ false)
        × (q.loop.heat_lockout ≡ true)
        × (q.loop.was_heating ≡ false)
        × (loop.auto_started_pump ≡ false → q.loop.auto_started_pump ≡ false)
        × (loop.auto_started_pump ≡ false → h.pump_state ≡ pump_low → q.snap.pump_state ≡ pump_low)
  unfolding control_round
  locked_round loop h locked cold =
      let r : Round Float = before_control fl loop h in
      let c : Round Float = auto_control fl r in
      ground (
        arith,
        before_control-locked loop h locked cold.1,
        auto_control-locked r,
        after_control-keeps c,
        after_control-heater fl c,
        filter-keeps fl h,
        verify-keeps fl r.snap,
      )

  -- Heating that was locked out stays so, and the heater off, in every round that reads the heater off
  -- and auto mode on and does not find the target reached.
  pub lockout_holds :
      (loop : Loop) (hs : List (HotTub Float))
      → loop.heat_lockout ≡ true
      → All StillCold hs
      → All (λ h. h.heater_on ≡ false) (run_rounds fl loop hs).1
        × ((run_rounds fl loop hs).0.heat_lockout ≡ true)
  unfolding run_rounds
  lockout_holds loop [] locked cold = (tt, locked)
  lockout_holds loop (h ∷ hs) locked cold =
      let r : Round Float = control_round fl loop h in
      let q = locked_round loop h locked cold.0 in
      let rest = lockout_holds r.loop hs q.1 cold.1 in ((q.0, rest.0), rest.1)

  -- The user turned the pump off while the heater was on, in auto mode, below the target.
  abbrev pub PumpStopped : HotTub Float → Type 0
  PumpStopped h =
      (h.pump_state ≡ pump_off)
      × (h.heater_on ≡ true)
      × (h.auto_mode ≡ true)
      × (heat_satisfied fl (tested fl h) ≡ false)

  heat_satisfied-heater :
      (h : HotTub Float) (b : Bool)
      → heat_satisfied fl (verify fl (record h { heater_on = b })) ≡ heat_satisfied fl (verify fl h)
  unfolding verify
  heat_satisfied-heater h b = refl

  pub stopped_round :
      (loop : Loop) (h : HotTub Float)
      → PumpStopped h
      → let q = control_round fl loop h in
        (q.snap.heater_on ≡ false)
        × (q.loop.heat_lockout ≡ true)
        × (q.loop.auto_started_pump ≡ false)
        × (is_positive q.loop.post_pump_timer ≡ true → q.snap.pump_state ≡ pump_low)
  unfolding control_round
  stopped_round loop h stopped =
      let r : Round Float = before_control fl loop h in
      let c : Round Float = auto_control fl r in
      ground (
        arith,
        before_control-override loop h stopped.0 (inl stopped.1),
        auto_control-locked r,
        after_control-keeps c,
        after_control-heater fl c,
        filter-keeps fl h,
        verify-keeps fl r.snap,
        heat_satisfied-heater (filter_temperature fl h) false,
      )

  -- A pump that is turned off by hand while the heater is on, in auto mode below the target, stops the
  -- heater in the next round and locks heating out: through all later rounds that read the heater off
  -- (nobody else turns it on) and auto mode on, and do not find the target reached, the heater stays off.
  pub pump_stop_locks_out :
      (loop : Loop) (h : HotTub Float) (hs : List (HotTub Float))
      → PumpStopped h
      → All StillCold hs
      → All (λ k. k.heater_on ≡ false) (run_rounds fl loop (h ∷ hs)).1
        × ((run_rounds fl loop (h ∷ hs)).0.heat_lockout ≡ true)
  unfolding run_rounds
  pump_stop_locks_out loop h hs stopped cold =
      let q = stopped_round loop h stopped in
      let rest = lockout_holds (control_round fl loop h).loop hs q.1 cold in ((q.0, rest.0), rest.1)

  pub left_running :
      (loop : Loop) (hs : List (HotTub Float))
      → loop.heat_lockout ≡ true
      → loop.auto_started_pump ≡ false
      → All (λ k. StillCold k × (k.pump_state ≡ pump_low)) hs
      → All (λ k. k.pump_state ≡ pump_low) (run_rounds fl loop hs).1
  unfolding run_rounds
  left_running loop [] locked free cold = tt
  left_running loop (h ∷ hs) locked free cold =
      let q = locked_round loop h locked cold.0.0 in
      (q.4 free cold.0.1, left_running (control_round fl loop h).loop hs q.1 (q.3 free) cold.1)
