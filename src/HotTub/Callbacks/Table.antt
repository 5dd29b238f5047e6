-- ===== src/HotTub/Callbacks/Table.antt =====
-- components/hot_tub_controller/src/hot_tub_callbacks.c: the table of commands and its registration.
use esp32_s3_hot_tub_base.Base.{ℕ, Bool, List, [], ◌∷◌, length, if◌then◌else◌}
use esp32_s3_hot_tub_base.Base.Text.{String}
use esp32_s3_hot_tub_base.Esp.{EspErr, ok, fail}
use esp32_s3_hot_tub_base.Float.Ops.{FloatOps}
use esp32_s3_hot_tub_base.Json.Items.{Cjson}
use esp32_s3_hot_tub_base.Json.Registry.{Entry, register_command}
use esp32_s3_hot_tub_base.HotTub.State.{HotTub}
use esp32_s3_hot_tub_base.HotTub.Persist.{System}
use esp32_s3_hot_tub_base.HotTub.Callbacks.Params.{status_get_callback}
use esp32_s3_hot_tub_base.HotTub.Callbacks.Getters.{
  auto_mode_get_callback, heater_status_get_callback, temperature_unit_get_callback,
  water_temperature_get_callback, filtered_water_temp_get_callback, simulation_mode_get_callback,
  air_temperature_get_callback, humidity_get_callback, setpoint_temperature_get_callback,
  high_hysteresis_get_callback, low_hysteresis_get_callback, pump_state_get_callback,
  low_pass_filter_alpha_get_callback, safety_switch_get_callback, pump_pre_run_time_get_callback,
  pump_post_run_time_get_callback, error_get_callback,
}
use esp32_s3_hot_tub_base.HotTub.Callbacks.Setters.{
  auto_mode_set_callback, heater_status_set_callback, temperature_unit_set_callback,
  water_temperature_set_callback, filtered_water_temp_set_callback, simulation_mode_set_callback,
  air_temperature_set_callback, humidity_set_callback, setpoint_temperature_set_callback,
  high_hysteresis_set_callback, low_hysteresis_set_callback, pump_state_set_callback,
  low_pass_filter_alpha_set_callback, safety_switch_set_callback, pump_pre_run_time_set_callback,
  pump_post_run_time_set_callback, error_set_callback,
}

module _ (fl : FloatOps) (js : Cjson fl.Double) where
  open fl use {Float}
  open js use {Item}

  -- `callbacks_t`
  abbrev pub Callback : Type 0
  Callback = Item → System Float → System Float × Item

  -- `hot_tub_callbacks`, without the sentinel; the arguments are those of the status command.
  unfoldable pub hot_tub_callbacks : Bool → HotTub Float → List ℕ → List (String × Callback)
  hot_tub_callbacks taken buffer now =
      ("hottub.status.get", status_get_callback fl js taken buffer now)
      ∷ ("hottub.automode.get", auto_mode_get_callback fl js)
      ∷ ("hottub.automode.set", auto_mode_set_callback fl js)
      ∷ ("hottub.heater.status.get", heater_status_get_callback fl js)
      ∷ ("hottub.heater.status.set", heater_status_set_callback fl js)
      ∷ ("hottub.temperature.unit.get", temperature_unit_get_callback fl js)
      ∷ ("hottub.temperature.unit.set", temperature_unit_set_callback fl js)
      ∷ ("hottub.water.temperature.get", water_temperature_get_callback fl js)
      ∷ ("hottub.water.temperature.set", water_temperature_set_callback fl js)
      ∷ ("hottub.filtered.water.temp.get", filtered_water_temp_get_callback fl js)
      ∷ ("hottub.filtered.water.temp.set", filtered_water_temp_set_callback fl js)
      ∷ ("hottub.simulation.mode.get", simulation_mode_get_callback fl js)
      ∷ ("hottub.simulation.mode.set", simulation_mode_set_callback fl js)
      ∷ ("hottub.air.temperature.get", air_temperature_get_callback fl js)
      ∷ ("hottub.air.temperature.set", air_temperature_set_callback fl js)
      ∷ ("hottub.humidity.get", humidity_get_callback fl js)
      ∷ ("hottub.humidity.set", humidity_set_callback fl js)
      ∷ ("hottub.setpoint.temperature.get", setpoint_temperature_get_callback fl js)
      ∷ ("hottub.setpoint.temperature.set", setpoint_temperature_set_callback fl js)
      ∷ ("hottub.high.hysteresis.get", high_hysteresis_get_callback fl js)
      ∷ ("hottub.high.hysteresis.set", high_hysteresis_set_callback fl js)
      ∷ ("hottub.low.hysteresis.get", low_hysteresis_get_callback fl js)
      ∷ ("hottub.low.hysteresis.set", low_hysteresis_set_callback fl js)
      ∷ ("hottub.pump.state.get", pump_state_get_callback fl js)
      ∷ ("hottub.pump.state.set", pump_state_set_callback fl js)
      ∷ ("hottub.low.pass.filter.alpha.get", low_pass_filter_alpha_get_callback fl js)
      ∷ ("hottub.low.pass.filter.alpha.set", low_pass_filter_alpha_set_callback fl js)
      ∷ ("hottub.safety.switch.get", safety_switch_get_callback fl js)
      ∷ ("hottub.safety.switch.set", safety_switch_set_callback fl js)
      ∷ ("hottub.pump.pre.run.time.get", pump_pre_run_time_get_callback fl js)
      ∷ ("hottub.pump.pre.run.time.set", pump_pre_run_time_set_callback fl js)
      ∷ ("hottub.pump.post.run.time.get", pump_post_run_time_get_callback fl js)
      ∷ ("hottub.pump.post.run.time.set", pump_post_run_time_set_callback fl js)
      ∷ ("hottub.error.get", error_get_callback fl js)
      ∷ ("hottub.error.set", error_set_callback fl js)
      ∷ []

  -- `hot_tub_controller_register_callbacks`, of a table; whether the registry can grow depends on
  -- its length.
  unfoldable pub register_callbacks :
      (ℕ → Bool)
      → List (String × Callback)
      → List (Entry (System Float) Item)
      → List (Entry (System Float) Item) × EspErr
  unfolding register_command
  register_callbacks grown [] registry = (registry, ok)
  register_callbacks grown ((command, callback) ∷ cs) registry =
      let (registry', done) =
        register_command (grown (length registry)) command callback 0 registry in
      let rest = register_callbacks grown cs registry' in if done then rest else (registry', fail)
