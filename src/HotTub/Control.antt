-- ===== src/HotTub/Control.antt =====
-- components/hot_tub_controller/src/hot_tub_controller.c: `hot_tub_controller_main_task`, one second
-- of the heating control loop, cut where the source has its numbered headings. The logs and the
-- watchdog calls are left out; they change nothing here.
use esp32_s3_hot_tub_base.Base.{ℕ, Bool, true, false, not, ◌&&◌, ◌||◌, List, [], ◌∷◌, if◌then◌else◌}
use esp32_s3_hot_tub_base.Base.Int.{ℤ, pos, is_positive, is_zero, pred_ℤ}
use esp32_s3_hot_tub_base.Esp.{is_ok}
use esp32_s3_hot_tub_base.Float.Ops.{FloatOps}
use esp32_s3_hot_tub_base.HotTub.State.{HotTub, pump_off, pump_low, sim_none, is_off, is_sim_none}
use esp32_s3_hot_tub_base.HotTub.Persist.{System, snapshot_get, snapshot_set}
use esp32_s3_hot_tub_base.HotTub.StructIo.{
  set_heater_on, set_pump_state, set_simulation_mode, set_safety_switch, set_error_code,
  set_initial_start_time,
}
use esp32_s3_hot_tub_base.HotTub.Settings.{
  verify_hysteresis, verify_pump_delay_times, temperature_filter,
}

-- The task's variables that outlive a round. The timers are C ints, in seconds.
pub record Loop : Type 0 where
  pub auto_started_pump : Bool
  pub was_heating : Bool
  pub heat_lockout : Bool
  pub pre_pump_timer : ℤ
  pub post_pump_timer : ℤ

unfoldable pub initial_loop : Loop
initial_loop = record {
  auto_started_pump = false;
  was_heating = false;
  heat_lockout = false;
  pre_pump_timer = pos 0;
  post_pump_timer = pos 0;
}

-- A round's local snapshot with the loop's variables.
pub record Round (F : Type 0) : Type 0 where
  pub loop : Loop
  pub snap : HotTub F

-- What the other tasks do to the shared state during a cycle: after the snapshot was read, after the
-- heater was set, and after the pump was set.
pub record Gaps (F : Type 0) : Type 0 where
  pub after_read : System F → System F
  pub between : System F → System F
  pub after_pump : System F → System F

-- `if (timer > 0) timer--;`
abbrev pub count_down : ℤ → ℤ
count_down t = if is_positive t then pred_ℤ t else t

module _ {F : Type 0} where
  unfoldable pub tick_timers : Round F → Round F
  tick_timers r = record r {
    loop = record (r.loop) {
      pre_pump_timer = count_down r.loop.pre_pump_timer;
      post_pump_timer = count_down r.loop.post_pump_timer;
    };
  }

  -- 1. The pump was turned off by hand while heating or before it: stop, and lock heating out.
  unfoldable pub manual_override : Round F → Round F
  manual_override r =
      if is_off r.snap.pump_state && (r.snap.heater_on || is_positive r.loop.pre_pump_timer)
      then record {
        loop = record (r.loop) {
          auto_started_pump = false;
          pre_pump_timer = pos 0;
          heat_lockout = true;
        };
        snap = record (r.snap) { heater_on = false };
      }
      else r

  -- 2., the other branch: auto mode is off.
  unfoldable pub auto_mode_off : Round F → Round F
  auto_mode_off r = record {
    loop = record (r.loop) { pre_pump_timer = pos 0; heat_lockout = false };
    snap = record (r.snap) { heater_on = false };
  }

  -- 2., a heating request: start the pump, arm the delay for a pump that runs, or turn the heater on.
  -- `pre_run` is `(int)snapshot.pumpPreRunTime`.
  unfoldable pub request_heat : ℤ → Round F → Round F
  request_heat pre_run r =
      let armed = record (r.loop) { auto_started_pump = true; pre_pump_timer = pre_run } in
      let idle = is_zero r.loop.pre_pump_timer in
      if r.snap.heater_on
      then r
      else (if is_off r.snap.pump_state && idle
          then record { loop = armed; snap = record (r.snap) { pump_state = pump_low } }
          else (if not (is_off r.snap.pump_state) && idle && not r.loop.auto_started_pump
              then record r { loop = armed }
              else (if idle then record r { snap = record (r.snap) { heater_on = true } } else r)))

  -- 2., the target is reached.
  unfoldable pub satisfy_heat : Round F → Round F
  satisfy_heat r = record {
    loop = record (r.loop) { pre_pump_timer = pos 0 };
    snap = record (r.snap) { heater_on = false };
  }

  -- 3. The heater went off since the last round: arm the post-run. `post_run` is
  -- `(int)snapshot.pumpPostRunTime`.
  unfoldable pub detect_falling_edge : ℤ → Round F → Round F
  detect_falling_edge post_run r =
      let fell = r.loop.was_heating && not r.snap.heater_on in
      record r {
        loop = record (r.loop) {
          post_pump_timer = if fell then post_run else r.loop.post_pump_timer;
          pre_pump_timer = if fell then pos 0 else r.loop.pre_pump_timer;
          was_heating = r.snap.heater_on;
        };
      }

  -- 3. The pump runs on low through the post-run, and goes off after it if the task started it.
  unfoldable pub run_pump : Round F → Round F
  run_pump r =
      let done =
        is_zero r.loop.post_pump_timer
        && is_zero r.loop.pre_pump_timer
        && r.loop.auto_started_pump
        && not r.snap.heater_on in
      if is_positive r.loop.post_pump_timer
      then record r { snap = record (r.snap) { pump_state = pump_low } }
      else (if done
          then record {
            loop = record (r.loop) { auto_started_pump = false };
            snap = record (r.snap) { pump_state = pump_off };
          }
          else r)

module _ (fl : FloatOps) where
  open fl use {Float, float_lit, flt, fadd, fsub, to_int}

  unfoldable pub filter_temperature : HotTub Float → HotTub Float
  filter_temperature h =
      if is_sim_none h.simulation_mode
      then record h {
        filtered_water_temp =
            temperature_filter fl h.water_temp h.filtered_water_temp (float_lit 1 1);
      }
      else h

  abbrev pub needs_heat : HotTub Float → Bool
  needs_heat h = flt h.filtered_water_temp (fsub h.setpoint_temp h.low_hysteresis)

  abbrev pub heat_satisfied : HotTub Float → Bool
  heat_satisfied h = flt (fadd h.setpoint_temp h.high_hysteresis) h.filtered_water_temp

  unfoldable pub verify : HotTub Float → HotTub Float
  unfolding verify_hysteresis verify_pump_delay_times
  verify h = verify_pump_delay_times fl (verify_hysteresis fl h)

  -- 2. with auto mode on, after the settings' check, by the two tests of the temperature.
  unfoldable pub auto_decide : Bool → Bool → Round Float → Round Float
  unfolding request_heat satisfy_heat
  auto_decide needs satisfied r0 =
      let lockout = if satisfied then false else r0.loop.heat_lockout in
      let r = record r0 { loop = record (r0.loop) { heat_lockout = lockout } } in
      if needs && is_zero r.loop.post_pump_timer && not lockout
      then request_heat (to_int r.snap.pump_pre_run_time) r
      else (if satisfied then satisfy_heat r else r)

  unfoldable pub auto_control : Round Float → Round Float
  unfolding auto_mode_off
  auto_control r =
      let r' = record r { snap = verify r.snap } in
      if r.snap.auto_mode
      then auto_decide (needs_heat r'.snap) (heat_satisfied r'.snap) r'
      else auto_mode_off r

  unfoldable pub after_control : Round Float → Round Float
  unfolding detect_falling_edge run_pump
  after_control r = run_pump (detect_falling_edge (to_int r.snap.pump_post_run_time) r)

  -- The round up to heading 2.: the filter, the timers and the manual override.
  unfoldable pub before_control : Loop → HotTub Float → Round Float
  unfolding filter_temperature tick_timers manual_override
  before_control loop snap =
      manual_override (tick_timers (record { loop = loop; snap = filter_temperature snap }))

  -- A round from the snapshot that was read to the one that is written.
  unfoldable pub control_round : Loop → HotTub Float → Round Float
  control_round loop snap = after_control (auto_control (before_control loop snap))

  -- 4. The heater and the pump by their setters, then the whole snapshot; a lock that is not had in
  -- time leaves the rest of the state as it is.
  unfoldable pub persist_round : Bool → HotTub Float → System Float → System Float
  unfolding set_heater_on set_pump_state snapshot_set
  persist_round taken snap s =
      (snapshot_set taken snap
        (set_pump_state snap.pump_state (set_heater_on snap.heater_on s).0)).0

  -- The same with the other tasks acting after each step.
  unfoldable pub persist_among : Bool → Gaps Float → HotTub Float → System Float → System Float
  unfolding set_heater_on set_pump_state snapshot_set
  persist_among taken g snap s0 =
      let s1 = g.between (set_heater_on snap.heater_on (g.after_read s0)).0 in
      let s2 = g.after_pump (set_pump_state snap.pump_state s1) in (snapshot_set taken snap s2).0

  -- The body of `while (1)`; a snapshot that cannot be had skips it.
  unfoldable pub control_cycle :
      Bool → Bool → Gaps Float → Loop → System Float → Loop × System Float
  unfolding persist_among snapshot_get
  control_cycle get_taken set_taken g loop s =
      let (err, snap) = snapshot_get get_taken s.ctl s in
      let r = control_round loop snap in
      if is_ok err then (r.loop, persist_among set_taken g r.snap s) else (loop, s)

  -- What the task does before its loop.
  unfoldable pub start_control : List ℕ → System Float → Loop × System Float
  unfolding initial_loop
  start_control now s =
      let s1 = (set_heater_on false s).0 in
      let s2 = set_pump_state pump_off s1 in
      let s3 = set_simulation_mode sim_none s2 in
      let s4 = set_safety_switch false s3 in
      let s5 = set_error_code (pos 0) s4 in (initial_loop, set_initial_start_time now s5)

  -- `while (1)` over the snapshots that it reads: the loop's variables and the snapshots written.
  unfoldable pub run_rounds : Loop → List (HotTub Float) → Loop × List (HotTub Float)
  run_rounds loop [] = (loop, [])
  run_rounds loop (h ∷ hs) =
      let r = control_round loop h in
      let (loop', out) = run_rounds r.loop hs in (loop', r.snap ∷ out)
