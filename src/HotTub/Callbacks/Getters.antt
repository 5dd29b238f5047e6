-- ===== src/HotTub/Callbacks/Getters.antt =====
-- components/hot_tub_controller/src/hot_tub_callbacks.c: the commands that read a setting.
use esp32_s3_hot_tub_base.Base.{Bool}
use esp32_s3_hot_tub_base.Base.Int.{ℤ}
use esp32_s3_hot_tub_base.Float.Ops.{FloatOps}
use esp32_s3_hot_tub_base.Json.Items.{Cjson}
use esp32_s3_hot_tub_base.HotTub.State.{PumpState, SimMode, pump_to_int, sim_to_int}
use esp32_s3_hot_tub_base.HotTub.Persist.{System}
use esp32_s3_hot_tub_base.HotTub.StructIo.{
  is_heater_on, is_auto_mode, is_temp_unit_celsius, get_water_temp, get_filtered_water_temp,
  get_simulation_mode, get_air_temp, get_humidity, get_setpoint_temp, get_high_hysteresis,
  get_low_hysteresis, get_pump_state, get_low_pass_filter_alpha, get_safety_switch, get_error_code,
  get_pump_pre_run_time, get_pump_post_run_time,
}
use esp32_s3_hot_tub_base.HotTub.Callbacks.Params.{callback_response}

module _ (fl : FloatOps) (js : Cjson fl.Double) where
  open fl use {Float, widen, of_int}
  open js use {Item, create_object, add_bool, add_number}

  unfoldable pub heater_status_get_callback : Item → System Float → System Float × Item
  unfolding is_heater_on callback_response
  heater_status_get_callback root s =
      let heater_on_now : Bool = is_heater_on s in
      (s, callback_response js root (add_bool create_object "heater.on" heater_on_now))

  unfoldable pub auto_mode_get_callback : Item → System Float → System Float × Item
  unfolding is_auto_mode callback_response
  auto_mode_get_callback root s =
      let auto_mode_now : Bool = is_auto_mode s in
      (s, callback_response js root (add_bool create_object "auto.mode" auto_mode_now))

  unfoldable pub temperature_unit_get_callback : Item → System Float → System Float × Item
  unfolding is_temp_unit_celsius callback_response
  temperature_unit_get_callback root s =
      let temp_unit_celsius_now : Bool = is_temp_unit_celsius s in
      (
        s,
        callback_response js root
            (add_bool create_object "temp.unit.celsius.get" temp_unit_celsius_now),
      )

  unfoldable pub water_temperature_get_callback : Item → System Float → System Float × Item
  unfolding get_water_temp callback_response
  water_temperature_get_callback root s =
      let water_temp_now : Float = get_water_temp s in
      (
        s,
        callback_response js root
            (add_number create_object "water.temperature.get" (widen water_temp_now)),
      )

  unfoldable pub filtered_water_temp_get_callback : Item → System Float → System Float × Item
  unfolding get_filtered_water_temp callback_response
  filtered_water_temp_get_callback root s =
      let filtered_water_temp_now : Float = get_filtered_water_temp s in
      (
        s,
        callback_response js root
            (add_number create_object "filtered.water.temp.get" (widen filtered_water_temp_now)),
      )

  unfoldable pub simulation_mode_get_callback : Item → System Float → System Float × Item
  unfolding get_simulation_mode callback_response
  simulation_mode_get_callback root s =
      let sim_mode_now : SimMode = get_simulation_mode s in
      (
        s,
        callback_response js root
            (add_number create_object "simulation.mode.get" (of_int (sim_to_int sim_mode_now))),
      )

  unfoldable pub air_temperature_get_callback : Item → System Float → System Float × Item
  unfolding get_air_temp callback_response
  air_temperature_get_callback root s =
      let air_temp_now : Float = get_air_temp s in
      (
        s,
        callback_response js root
            (add_number create_object "air.temperature.get" (widen air_temp_now)),
      )

  unfoldable pub humidity_get_callback : Item → System Float → System Float × Item
  unfolding get_humidity callback_response
  humidity_get_callback root s =
      let humidity_now : Float = get_humidity s in
      (s, callback_response js root (add_number create_object "humidity.get" (widen humidity_now)))

  unfoldable pub setpoint_temperature_get_callback : Item → System Float → System Float × Item
  unfolding get_setpoint_temp callback_response
  setpoint_temperature_get_callback root s =
      let setpoint_temp_now : Float = get_setpoint_temp s in
      (
        s,
        callback_response js root
            (add_number create_object "setpoint.temperature.get" (widen setpoint_temp_now)),
      )

  unfoldable pub high_hysteresis_get_callback : Item → System Float → System Float × Item
  unfolding get_high_hysteresis callback_response
  high_hysteresis_get_callback root s =
      let high_hysteresis_now : Float = get_high_hysteresis s in
      (
        s,
        callback_response js root
            (add_number create_object "high.hysteresis.get" (widen high_hysteresis_now)),
      )

  unfoldable pub low_hysteresis_get_callback : Item → System Float → System Float × Item
  unfolding get_low_hysteresis callback_response
  low_hysteresis_get_callback root s =
      let low_hysteresis_now : Float = get_low_hysteresis s in
      (
        s,
        callback_response js root
            (add_number create_object "low.hysteresis.get" (widen low_hysteresis_now)),
      )

  unfoldable pub pump_state_get_callback : Item → System Float → System Float × Item
  unfolding get_pump_state callback_response
  pump_state_get_callback root s =
      let pump_state_now : PumpState = get_pump_state s in
      (
        s,
        callback_response js root
            (add_number create_object "pump.state.get" (of_int (pump_to_int pump_state_now))),
      )

  unfoldable pub low_pass_filter_alpha_get_callback : Item → System Float → System Float × Item
  unfolding get_low_pass_filter_alpha callback_response
  low_pass_filter_alpha_get_callback root s =
      let low_pass_filter_alpha_now : Float = get_low_pass_filter_alpha s in
      (
        s,
        callback_response js root (
            add_number create_object "low.pass.filter.alpha.get" (widen low_pass_filter_alpha_now)),
      )

  unfoldable pub safety_switch_get_callback : Item → System Float → System Float × Item
  unfolding get_safety_switch callback_response
  safety_switch_get_callback root s =
      let safety_switch_now : Bool = get_safety_switch s in
      (s, callback_response js root (add_bool create_object "safety.switch.get" safety_switch_now))

  unfoldable pub error_get_callback : Item → System Float → System Float × Item
  unfolding get_error_code callback_response
  error_get_callback root s =
      let error_now : ℤ = get_error_code s in
      (s, callback_response js root (add_number create_object "error.get" (of_int error_now)))

  unfoldable pub pump_pre_run_time_get_callback : Item → System Float → System Float × Item
  unfolding get_pump_pre_run_time callback_response
  pump_pre_run_time_get_callback root s =
      let pre_run_time_now : Float = get_pump_pre_run_time s in
      (
        s,
        callback_response js root
            (add_number create_object "pump.pre.run.time.get" (widen pre_run_time_now)),
      )

  unfoldable pub pump_post_run_time_get_callback : Item → System Float → System Float × Item
  unfolding get_pump_post_run_time callback_response
  pump_post_run_time_get_callback root s =
      let post_run_time_now : Float = get_pump_post_run_time s in
      (
        s,
        callback_response js root
            (add_number create_object "pump.post.run.time.get" (widen post_run_time_now)),
      )
