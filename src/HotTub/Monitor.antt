-- ===== src/HotTub/Monitor.antt =====
-- components/hot_tub_controller: the monitoring task of src/hot_tub_ds18b20.c round by round, and
-- get_simulated_temperature of src/hot_tub_sim.c.
use esp32_s3_hot_tub_base.Base.{
  ℕ, ◌+◌, ◌-◌, ◌^◌, ◌%◌, Bool, true, false, not, ◌&&◌, ◌||◌, List, [], ◌∷◌, Option, none, some, ltb,
  ◌==◌, if◌then◌else◌,
}
use esp32_s3_hot_tub_base.Float.Ops.{FloatOps}
use esp32_s3_hot_tub_base.HotTub.State.{SimMode, sim_manual, sim_triangle}
use esp32_s3_hot_tub_base.HotTub.Persist.{System}
use esp32_s3_hot_tub_base.HotTub.Sensor.{Sensor, Attempt, sensor_cleanup, read_temperature}

-- What one round meets: whether an update is in progress, and the attempts to read.
pub record MonitorRun (V : Type 0) : Type 0 where
  pub update_in_progress : Bool
  pub first : Attempt V
  pub second : Attempt V

-- The handles of the sensor, `paused_for_ota` and `read_failures`.
pub record Monitor : Type 0 where
  pub sensor : Sensor
  pub paused_for_ota : Bool
  pub read_failures : ℕ

-- The start of the task.
abbrev pub started : Sensor → Monitor
started sensor = record { sensor = sensor; paused_for_ota = false; read_failures = 0 }

-- One more failure, up to UINT32_MAX.
abbrev pub count_failure : ℕ → ℕ
count_failure n = if ltb n (2 ^ 32 - 1) then n + 1 else n

-- When a failure is logged.
abbrev pub is_logged : ℕ → Bool
is_logged n = n == 0 || n % 60 == 0

-- A round that an update pauses.
unfoldable pub pause_round : Monitor → Monitor
unfolding sensor_cleanup
pause_round m =
    if m.paused_for_ota
    then m
    else record m { sensor = sensor_cleanup m.sensor; paused_for_ota = true }

module _ (fl : FloatOps) where
  -- A reading rounded to one decimal place.
  abbrev pub to_tenths : fl.Float → fl.Float
  to_tenths t = fl.fdiv (fl.roundf (fl.fmul t (fl.float_lit 100 1))) (fl.float_lit 100 1)

  -- What a reading stores and how it counts, with whether a failure is logged.
  unfoldable pub store_reading :
      Option fl.Float → Sensor → System fl.Float → Monitor → System fl.Float × Monitor × Bool
  store_reading none sensor s m = (
    s,
    record {
      sensor = sensor;
      paused_for_ota = false;
      read_failures = count_failure m.read_failures;
    },
    is_logged m.read_failures,
  )
  store_reading (some t) sensor s m = (
    record s { ctl = record (s.ctl) { water_temp = to_tenths t } },
    record { sensor = sensor; paused_for_ota = false; read_failures = 0 },
    false,
  )

  -- The part of a round that is not paused.
  unfoldable pub read_round :
      MonitorRun fl.Float → System fl.Float → Monitor → System fl.Float × Monitor × Bool
  unfolding read_temperature store_reading
  read_round r s m =
      let (err, reading, sensor) = read_temperature r.first r.second m.sensor in
      store_reading reading sensor s m

  -- A round of `water_temperature_monitoring_task`.
  unfoldable pub monitor_round :
      MonitorRun fl.Float → System fl.Float → Monitor → System fl.Float × Monitor × Bool
  unfolding pause_round read_round
  monitor_round r s m =
      let reads = read_round r s m in
      if r.update_in_progress then (s, pause_round m, false) else reads

  -- The task on a list of rounds, each with the shared state that it finds.
  unfoldable pub run_monitor : List (System fl.Float × MonitorRun fl.Float) → Monitor → Monitor
  unfolding monitor_round
  run_monitor [] m = m
  run_monitor ((s, r) ∷ rest) m = run_monitor rest (monitor_round r s m).1

  -- `temp >= bound` of numbers that may be NaN
  abbrev pub at_least : fl.Float → fl.Float → Bool
  at_least temp bound = not (fl.flt temp bound) && not (fl.is_nan temp)

  -- `get_simulated_temperature`, of the reading `temp` (0.0 if it failed) and its `direction`: whether
  -- it goes up.
  unfoldable pub get_simulated_temperature : SimMode → fl.Float → Bool → fl.Float × Bool
  get_simulated_temperature sim_manual temp up = (fl.float_lit 0 1, up)
  get_simulated_temperature sim_triangle temp up =
      let step = fl.float_lit 1 1 in
      let t = if up then fl.fadd temp step else fl.fsub temp step in
      let up1 = if at_least t (fl.float_lit 420 1) then false else up in
      (t, if at_least (fl.float_lit 300 1) t then true else up1)
  get_simulated_temperature _ temp up = (temp, up)
