-- ===== src/HotTub/Callbacks/Setters.antt =====
-- components/hot_tub_controller/src/hot_tub_callbacks.c: the commands that write a setting.
use esp32_s3_hot_tub_base.Base.{Bool}
use esp32_s3_hot_tub_base.Base.Int.{ℤ}
use esp32_s3_hot_tub_base.Float.Ops.{FloatOps}
use esp32_s3_hot_tub_base.Json.Items.{Cjson}
use esp32_s3_hot_tub_base.HotTub.State.{
  PumpState, SimMode, pump_of_int, sim_of_int, pump_to_int, sim_to_int,
}
use esp32_s3_hot_tub_base.HotTub.Persist.{System}
use esp32_s3_hot_tub_base.HotTub.StructIo.{
  set_heater_on, set_auto_mode, set_temp_unit_celsius, set_water_temp, set_filtered_water_temp,
  set_simulation_mode, set_air_temp, set_humidity, set_setpoint_temp, set_high_hysteresis,
  set_low_hysteresis, set_pump_state, set_low_pass_filter_alpha, set_safety_switch, set_error_code,
  set_pump_pre_run_time, set_pump_post_run_time,
}
use esp32_s3_hot_tub_base.HotTub.Callbacks.Params.{callback_response, with_param}

module _ (fl : FloatOps) (js : Cjson fl.Double) where
  open fl use {Float, widen, narrow, of_int}
  open js use {Item, is_true, valuedouble, valueint, create_object, add_bool, add_number}

  unfoldable pub heater_status_set_callback : Item → System Float → System Float × Item
  unfolding set_heater_on callback_response with_param
  heater_status_set_callback root s = with_param js root s (λ item.
      let heater_on_new : Bool = is_true item in
      (
        (set_heater_on heater_on_new s).0,
        callback_response js root (add_bool create_object "heater.on" heater_on_new),
      ))

  unfoldable pub auto_mode_set_callback : Item → System Float → System Float × Item
  unfolding set_auto_mode callback_response with_param
  auto_mode_set_callback root s = with_param js root s (λ item.
      let auto_mode_new : Bool = is_true item in
      (
        (set_auto_mode auto_mode_new s).0,
        callback_response js root (add_bool create_object "auto.mode" auto_mode_new),
      ))

  unfoldable pub temperature_unit_set_callback : Item → System Float → System Float × Item
  unfolding set_temp_unit_celsius callback_response with_param
  temperature_unit_set_callback root s = with_param js root s (λ item.
      let temp_unit_celsius_new : Bool = is_true item in
      (
        (set_temp_unit_celsius temp_unit_celsius_new s).0,
        callback_response js root
            (add_bool create_object "temp.unit.celsius.set" temp_unit_celsius_new),
      ))

  unfoldable pub water_temperature_set_callback : Item → System Float → System Float × Item
  unfolding set_water_temp callback_response with_param
  water_temperature_set_callback root s = with_param js root s (λ item.
      let water_temp_new : Float = narrow (valuedouble item) in
      (
        set_water_temp water_temp_new s,
        callback_response js root
            (add_number create_object "water.temperature.set" (widen water_temp_new)),
      ))

  unfoldable pub filtered_water_temp_set_callback : Item → System Float → System Float × Item
  unfolding set_filtered_water_temp callback_response with_param
  filtered_water_temp_set_callback root s = with_param js root s (λ item.
      let filtered_water_temp_new : Float = narrow (valuedouble item) in
      (
        set_filtered_water_temp filtered_water_temp_new s,
        callback_response js root
            (add_number create_object "filtered.water.temp.set" (widen filtered_water_temp_new)),
      ))

  unfoldable pub simulation_mode_set_callback : Item → System Float → System Float × Item
  unfolding set_simulation_mode callback_response with_param
  simulation_mode_set_callback root s = with_param js root s (λ item.
      let sim_mode_new : SimMode = sim_of_int (valueint item) in
      (
        set_simulation_mode sim_mode_new s,
        callback_response js root
            (add_number create_object "simulation.mode.set" (of_int (sim_to_int sim_mode_new))),
      ))

  unfoldable pub air_temperature_set_callback : Item → System Float → System Float × Item
  unfolding set_air_temp callback_response with_param
  air_temperature_set_callback root s = with_param js root s (λ item.
      let air_temp_new : Float = narrow (valuedouble item) in
      (
        set_air_temp air_temp_new s,
        callback_response js root
            (add_number create_object "air.temperature.set" (widen air_temp_new)),
      ))

  unfoldable pub humidity_set_callback : Item → System Float → System Float × Item
  unfolding set_humidity callback_response with_param
  humidity_set_callback root s = with_param js root s (λ item.
      let humidity_new : Float = narrow (valuedouble item) in
      (
        set_humidity humidity_new s,
        callback_response js root (add_number create_object "humidity.set" (widen humidity_new)),
      ))

  unfoldable pub setpoint_temperature_set_callback : Item → System Float → System Float × Item
  unfolding set_setpoint_temp callback_response with_param
  setpoint_temperature_set_callback root s = with_param js root s (λ item.
      let setpoint_temp_new : Float = narrow (valuedouble item) in
      (
        set_setpoint_temp setpoint_temp_new s,
        callback_response js root
            (add_number create_object "setpoint.temperature.set" (widen setpoint_temp_new)),
      ))

  unfoldable pub high_hysteresis_set_callback : Item → System Float → System Float × Item
  unfolding set_high_hysteresis callback_response with_param
  high_hysteresis_set_callback root s = with_param js root s (λ item.
      let high_hysteresis_new : Float = narrow (valuedouble item) in
      (
        set_high_hysteresis high_hysteresis_new s,
        callback_response js root
            (add_number create_object "high.hysteresis.set" (widen high_hysteresis_new)),
      ))

  unfoldable pub low_hysteresis_set_callback : Item → System Float → System Float × Item
  unfolding set_low_hysteresis callback_response with_param
  low_hysteresis_set_callback root s = with_param js root s (λ item.
      let low_hysteresis_new : Float = narrow (valuedouble item) in
      (
        set_low_hysteresis low_hysteresis_new s,
        callback_response js root
            (add_number create_object "low.hysteresis.set" (widen low_hysteresis_new)),
      ))

  unfoldable pub pump_state_set_callback : Item → System Float → System Float × Item
  unfolding set_pump_state callback_response with_param
  pump_state_set_callback root s = with_param js root s (λ item.
      let pump_state_new : PumpState = pump_of_int (valueint item) in
      (
        set_pump_state pump_state_new s,
        callback_response js root
            (add_number create_object "pump.state.set" (of_int (pump_to_int pump_state_new))),
      ))

  unfoldable pub low_pass_filter_alpha_set_callback : Item → System Float → System Float × Item
  unfolding set_low_pass_filter_alpha callback_response with_param
  low_pass_filter_alpha_set_callback root s = with_param js root s (λ item.
      let low_pass_filter_alpha_new : Float = narrow (valuedouble item) in
      (
        set_low_pass_filter_alpha fl low_pass_filter_alpha_new s,
        callback_response js root (
            add_number create_object "low.pass.filter.alpha.set" (widen low_pass_filter_alpha_new)),
      ))

  unfoldable pub safety_switch_set_callback : Item → System Float → System Float × Item
  unfolding set_safety_switch callback_response with_param
  safety_switch_set_callback root s = with_param js root s (λ item.
      let safety_switch_new : Bool = is_true item in
      (
        set_safety_switch safety_switch_new s,
        callback_response js root (add_bool create_object "safety.switch.set" safety_switch_new),
      ))

  unfoldable pub error_set_callback : Item → System Float → System Float × Item
  unfolding set_error_code callback_response with_param
  error_set_callback root s = with_param js root s (λ item.
      let error_new : ℤ = valueint item in
      (
        set_error_code error_new s,
        callback_response js root (add_number create_object "error.set" (of_int error_new)),
      ))

  unfoldable pub pump_pre_run_time_set_callback : Item → System Float → System Float × Item
  unfolding set_pump_pre_run_time callback_response with_param
  pump_pre_run_time_set_callback root s = with_param js root s (λ item.
      let pre_run_time_new : Float = narrow (valuedouble item) in
      (
        set_pump_pre_run_time pre_run_time_new s,
        callback_response js root
            (add_number create_object "pump.pre.run.time.set" (widen pre_run_time_new)),
      ))

  unfoldable pub pump_post_run_time_set_callback : Item → System Float → System Float × Item
  unfolding set_pump_post_run_time callback_response with_param
  pump_post_run_time_set_callback root s = with_param js root s (λ item.
      let post_run_time_new : Float = narrow (valuedouble item) in
      (
        set_pump_post_run_time post_run_time_new s,
        callback_response js root
            (add_number create_object "pump.post.run.time.set" (widen post_run_time_new)),
      ))
