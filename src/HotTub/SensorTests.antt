-- ===== src/HotTub/SensorTests.antt =====
-- Rounds of the monitoring task with readings that fail, a reading that does not, and an update.
use esp32_s3_hot_tub_base.Base.{◌≡◌, refl, true, false, [], ◌∷◌}
use esp32_s3_hot_tub_base.Esp.{ok, fail, timeout}
use esp32_s3_hot_tub_base.Float.Fixed.{Fixed, fixed, literal}
use esp32_s3_hot_tub_base.HotTub.State.{sim_manual, sim_triangle}
use esp32_s3_hot_tub_base.HotTub.Tests.{cold_tub, tub}
use esp32_s3_hot_tub_base.HotTub.Sensor.{Sensor, Attempt}
use esp32_s3_hot_tub_base.HotTub.Monitor.{
  MonitorRun, started, is_logged, monitor_round, run_monitor, get_simulated_temperature,
}
use esp32_s3_hot_tub_base.HotTub.Polling.{IsSoundRound, run_monitor-IsSoundRound}

-- The sensor is found but does not answer.
abbrev silent : Attempt Fixed
silent = record {
  new_bus = ok;
  new_device = ok;
  set_resolution = ok;
  task_created = true;
  trigger = timeout;
  read = ok;
  value = literal 0 0;
}

abbrev absent : Attempt Fixed
absent = record silent { new_device = fail }

abbrev opened : Sensor
opened = record { bus = true; device = true; monitor_created = true }

abbrev warm : Attempt Fixed
warm = record silent { trigger = ok; value = literal 3847 2 }

abbrev polled : MonitorRun Fixed
polled = record { update_in_progress = false; first = warm; second = warm }

abbrev broken : MonitorRun Fixed
broken = record polled { first = silent; second = absent }

abbrev updating : MonitorRun Fixed
updating = record polled { update_in_progress = true }

run_monitor-IsSoundRound_example : IsSoundRound fixed polled (tub cold_tub) (
    monitor_round fixed polled (tub cold_tub) (
      run_monitor fixed
        ((tub cold_tub, broken) ∷ ((tub cold_tub, updating) ∷ []))
        (started opened)))
run_monitor-IsSoundRound_example =
    run_monitor-IsSoundRound fixed ((tub cold_tub, broken) ∷ ((tub cold_tub, updating) ∷ [])) opened
      polled (tub cold_tub) refl

-- A reading of 38.47 degrees is stored as 38.5.
stores_tenths :
    (monitor_round fixed polled (tub cold_tub) (started opened)).0.ctl.water_temp ≡ literal 385 1
unfolding monitor_round esp32_s3_hot_tub_base.Base.Int.quot_ℕ esp32_s3_hot_tub_base.Base.Int.◌*ℤ◌
stores_tenths = refl

-- Two rounds fail and are counted; the second is not logged; an update then keeps the count.
counts_failures :
    let m =
      run_monitor fixed ((tub cold_tub, broken) ∷ ((tub cold_tub, broken) ∷ [])) (started opened) in
    (m.read_failures ≡ 2)
    × ((monitor_round fixed updating (tub cold_tub) m).1.read_failures ≡ 2)
    × (is_logged 1 ≡ false)
    × (is_logged 60 ≡ true)
unfolding run_monitor
counts_failures = (refl, refl, refl, refl)

-- The manual mode of the simulation is always 0.0, and the triangle turns at 42.0 degrees.
simulates :
    ((get_simulated_temperature fixed sim_manual (literal 38 0) true).0 ≡ literal 0 0)
    × ((get_simulated_temperature fixed sim_triangle (literal 420 1) true).1 ≡ false)
unfolding get_simulated_temperature esp32_s3_hot_tub_base.Base.Int.◌+ℤ◌
simulates = (refl, refl)
