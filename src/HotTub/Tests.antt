-- ===== src/HotTub/Tests.antt =====
-- The control loop on concrete readings, in the fixed-point instance of `float`.
use esp32_s3_hot_tub_base.Base.{
  ◌≡◌, refl, ◌≢◌, inl, inr, Bool, true, false, List, [], ◌∷◌, All, some, arith,
}
use esp32_s3_hot_tub_base.Base.Int.{pos, negsuc, ◌+ℤ◌, ◌-ℤ◌, ◌*ℤ◌, quot_ℕ}
use esp32_s3_hot_tub_base.Float.Fixed.{Fixed, milli, fixed, fixed_laws, literal}
use esp32_s3_hot_tub_base.HotTub.State.{HotTub, PumpState, pump_off, pump_low, sim_none}
use esp32_s3_hot_tub_base.HotTub.Persist.{System}
use esp32_s3_hot_tub_base.HotTub.Settings.{outside, temperature_filter, verified_run_time}
use esp32_s3_hot_tub_base.HotTub.Control.{
  Loop, initial_loop, before_control, auto_decide, auto_control, after_control, control_round,
  run_rounds, Gaps, control_cycle, verify,
}
use esp32_s3_hot_tub_base.HotTub.Safety.{
  Interlocked, control_round-Interlocked, control_cycle-Interlocked,
}
use esp32_s3_hot_tub_base.HotTub.Heating.{heater_start_needs, pre_run_respected}
use esp32_s3_hot_tub_base.HotTub.PostRun.{PumpLow, post_run_respected, negative_post_run_blocks}
use esp32_s3_hot_tub_base.HotTub.Bounds.{TimersInRange, run_rounds-timers}
use esp32_s3_hot_tub_base.HotTub.Lockout.{StillCold, pump_stop_locks_out}
use esp32_s3_hot_tub_base.HotTub.Progress.{HeatsFirstAt, at_rest, heat_request_served}
use esp32_s3_hot_tub_base.HotTub.Manual.{
  pump_stop_leaves_pump_on, heater_stop_undone, heater_start_unchecked, settings_ignored, changed,
}

-- Auto mode at 30.0 degrees with the target at 36.0, all off, run times of 2 seconds.
abbrev pub cold_tub : HotTub Fixed
cold_tub = record {
  safety_switch = false;
  heater_on = false;
  auto_mode = true;
  temp_unit_celsius = true;
  pump_on_light = false;
  heater_on_light = false;
  water_temp = literal 30 0;
  filtered_water_temp = literal 30 0;
  air_temp = literal 20 0;
  humidity = literal 50 0;
  setpoint_temp = literal 36 0;
  low_pass_filter_alpha = literal 1 1;
  high_hysteresis = literal 1 0;
  low_hysteresis = literal 1 0;
  pump_pre_run_time = literal 2 0;
  pump_post_run_time = literal 2 0;
  pump_state = pump_off;
  initial_start_time = [];
  last_update_time = [];
  simulation_mode = sim_none;
  error_code = pos 0;
}

abbrev pump_running : HotTub Fixed
pump_running = record cold_tub { pump_state = pump_low }

abbrev pub heating : HotTub Fixed
heating = record pump_running { heater_on = true }

abbrev pump_stopped : HotTub Fixed
pump_stopped = record cold_tub { heater_on = true }

-- The loop's variables with the heater on and the pump owned.
abbrev pub heating_loop : Loop
heating_loop = record {
  auto_started_pump = true;
  was_heating = true;
  heat_lockout = false;
  pre_pump_timer = pos 0;
  post_pump_timer = pos 0;
}

-- The pre-run has four seconds left.
abbrev waiting_loop : Loop
waiting_loop = record heating_loop { was_heating = false; pre_pump_timer = pos 4 }

-- Auto mode is turned off while heating.
abbrev manual : HotTub Fixed
manual = record heating { auto_mode = false }

abbrev pump_off_again : HotTub Fixed
pump_off_again = record manual { heater_on = false; pump_state = pump_off }

-- So it is, with a post-run time of -5 seconds.
abbrev bad_post_run : HotTub Fixed
bad_post_run = record manual { pump_post_run_time = milli (negsuc 4999) }

abbrev pub tub : HotTub Fixed → System Fixed
tub h = record { mutex = true; ctl = h; queue = some 0 }

abbrev map_outputs : List (HotTub Fixed) → List (Bool × PumpState)
map_outputs [] = []
map_outputs (h ∷ hs) = (h.heater_on, h.pump_state) ∷ map_outputs hs

-- What a round computes with.
unfoldable pub rounds : Unit {0}
unfolding initial_loop run_rounds control_round before_control auto_control auto_decide
    after_control verify verified_run_time temperature_filter ◌+ℤ◌ ◌-ℤ◌ ◌*ℤ◌ quot_ℕ
rounds = tt

-- The first three rounds start the pump, wait, and turn the heater on.
start_up :
    map_outputs (run_rounds fixed initial_loop (cold_tub ∷ pump_running ∷ pump_running ∷ [])).1
    ≡ (false, pump_low) ∷ (false, pump_low) ∷ (true, pump_low) ∷ []
unfolding rounds
start_up = refl

control_round-Interlocked_example : Interlocked (control_round fixed heating_loop pump_stopped).snap
control_round-Interlocked_example = control_round-Interlocked fixed heating_loop pump_stopped

-- Other tasks set a target temperature after each step of the cycle, and its lock is not had.
abbrev target_set : Gaps Fixed
target_set =
    let set_target : System Fixed → System Fixed =
      λ s. record s { ctl = record (s.ctl) { setpoint_temp = literal 40 0 } } in
    record { after_read = set_target; between = set_target; after_pump = set_target }

control_cycle-Interlocked_example :
    Interlocked (control_cycle fixed true false target_set heating_loop (tub pump_stopped)).1.ctl
control_cycle-Interlocked_example =
    control_cycle-Interlocked fixed false target_set heating_loop (tub pump_stopped) refl
      (λ s. refl, λ s. refl, λ s. refl) (inr (λ s. refl, λ s. refl, λ s. refl))

heater_start_needs_example : pump_running.pump_state ≢ pump_off
unfolding rounds
heater_start_needs_example =
    (heater_start_needs fixed (record heating_loop { was_heating = false }) pump_running refl
      refl).2

pre_run_respected_example :
    All (λ h. h.heater_on ≡ false) (run_rounds fixed initial_loop (cold_tub ∷ pump_running ∷ [])).1
unfolding rounds
pre_run_respected_example =
    pre_run_respected fixed 2 initial_loop (cold_tub ∷ pump_running ∷ []) refl refl refl
      (ground arith) (omega arith)

post_run_respected_example :
    All (PumpLow fixed) (run_rounds fixed heating_loop (manual ∷ pump_off_again ∷ [])).1
unfolding rounds
post_run_respected_example =
    post_run_respected fixed 2 heating_loop manual (pump_off_again ∷ []) refl refl refl
      (omega arith) (ground arith)

negative_post_run_blocks_example :
    let (loop, out) = run_rounds fixed heating_loop (bad_post_run ∷ cold_tub ∷ pump_running ∷ []) in
    All (λ k. k.heater_on ≡ false) out × (loop.post_pump_timer ≡ negsuc 4)
unfolding rounds
negative_post_run_blocks_example =
    negative_post_run_blocks fixed 4 heating_loop bad_post_run (cold_tub ∷ pump_running ∷ []) refl
      refl refl (ground arith)

run_rounds-timers_example : TimersInRange (run_rounds fixed initial_loop (cold_tub ∷ manual ∷ [])).0
unfolding rounds outside
run_rounds-timers_example =
    run_rounds-timers fixed fixed_laws initial_loop (cold_tub ∷ manual ∷ []) (omega arith)
      ((refl, refl, inl refl), ((refl, refl, inr refl), tt))

pump_stop_locks_out_example :
    (run_rounds fixed heating_loop (pump_stopped ∷ pump_running ∷ [])).0.heat_lockout ≡ true
unfolding rounds
pump_stop_locks_out_example =
    (pump_stop_locks_out fixed heating_loop pump_stopped (pump_running ∷ [])
      (refl, refl, refl, refl) ((refl, refl, refl), tt)).1

still_low : StillCold fixed pump_running × (pump_running.pump_state ≡ pump_low)
unfolding rounds
still_low = ((refl, refl, refl), refl)

pump_stop_leaves_pump_on_example :
    All
      (λ k. k.pump_state ≡ pump_low)
      (run_rounds fixed heating_loop
        (pump_stopped ∷ pump_running ∷ pump_running ∷ pump_running ∷ [])).1
unfolding rounds
pump_stop_leaves_pump_on_example =
    pump_stop_leaves_pump_on fixed 1 heating_loop pump_stopped
      (pump_running ∷ pump_running ∷ pump_running ∷ []) refl (refl, refl, refl, refl) refl
      (still_low, (still_low, (still_low, tt)))

heater_stop_undone_example : (control_round fixed heating_loop pump_running).snap.heater_on ≡ true
unfolding rounds
heater_stop_undone_example =
    heater_stop_undone fixed heating_loop pump_running refl refl refl (ground arith) refl refl refl
      refl

heater_start_unchecked_example : (control_round fixed waiting_loop heating).snap.heater_on ≡ true
unfolding rounds
heater_start_unchecked_example =
    heater_start_unchecked fixed waiting_loop heating refl refl (ground arith) refl

settings_ignored_example :
    control_round fixed heating_loop
      (record heating { safety_switch = true; low_pass_filter_alpha = literal 9 1 })
    ≡ changed fixed true (literal 9 1) (control_round fixed heating_loop heating)
settings_ignored_example = settings_ignored fixed true (literal 9 1) heating_loop heating

heat_request_served_example :
    HeatsFirstAt fixed 2
      (run_rounds fixed (at_rest fixed) (cold_tub ∷ pump_running ∷ pump_running ∷ [])).1
unfolding rounds
heat_request_served_example =
    heat_request_served fixed 1 cold_tub (pump_running ∷ pump_running ∷ []) refl refl refl refl refl
      refl ((refl, refl, refl, ground arith), ((refl, refl, refl, ground arith), tt))
