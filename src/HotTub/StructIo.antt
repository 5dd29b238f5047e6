-- ===== src/HotTub/StructIo.antt =====
-- components/hot_tub_controller/src/hot_tub_struct_io.c: the setters and getters of the shared state.
-- Each holds the lock for one access; a setter then asks for the settings to be saved.
use esp32_s3_hot_tub_base.Base.{ℕ, ◌-◌, ◌||◌, Bool, List, set, if◌then◌else◌}
use esp32_s3_hot_tub_base.Base.Int.{ℤ}
use esp32_s3_hot_tub_base.Esp.{EspErr, ok, fail, is_ok}
use esp32_s3_hot_tub_base.Float.Ops.{FloatOps}
use esp32_s3_hot_tub_base.HotTub.State.{PumpState, SimMode, time_buffer_size, strncpy}
use esp32_s3_hot_tub_base.HotTub.Persist.{System, save_settings}

-- The field's array after `strncpy` of all but its last byte and the terminator.
unfoldable pub time_field : List ℕ → List ℕ → List ℕ
unfolding strncpy
time_field old time_str = set (strncpy old time_str (time_buffer_size - 1)) (time_buffer_size - 1) 0

module _ {F : Type 0} where
  -- The end of a setter that reports a failed save as `ESP_FAIL`.
  unfoldable pub saved : System F → System F × EspErr
  unfolding save_settings
  saved s = let (s', err) = save_settings s in (s', if is_ok err then ok else fail)

  -- The end of a setter that only logs a failed save.
  unfoldable pub saved_quietly : System F → System F
  unfolding save_settings
  saved_quietly s = (save_settings s).0

  unfoldable pub is_heater_on : System F → Bool
  is_heater_on s = s.ctl.heater_on

  unfoldable pub set_heater_on : Bool → System F → System F × EspErr
  unfolding saved
  set_heater_on on s = saved (record s { ctl = record (s.ctl) { heater_on = on } })

  unfoldable pub is_auto_mode : System F → Bool
  is_auto_mode s = s.ctl.auto_mode

  unfoldable pub set_auto_mode : Bool → System F → System F × EspErr
  unfolding saved
  set_auto_mode on s = saved (record s { ctl = record (s.ctl) { auto_mode = on } })

  unfoldable pub is_temp_unit_celsius : System F → Bool
  is_temp_unit_celsius s = s.ctl.temp_unit_celsius

  unfoldable pub set_temp_unit_celsius : Bool → System F → System F × EspErr
  unfolding saved
  set_temp_unit_celsius on s = saved (record s { ctl = record (s.ctl) { temp_unit_celsius = on } })

  unfoldable pub is_pump_on_light : System F → Bool
  is_pump_on_light s = s.ctl.pump_on_light

  unfoldable pub set_pump_on_light : Bool → System F → System F × EspErr
  unfolding saved
  set_pump_on_light on s = saved (record s { ctl = record (s.ctl) { pump_on_light = on } })

  unfoldable pub is_heater_on_light : System F → Bool
  is_heater_on_light s = s.ctl.heater_on_light

  unfoldable pub set_heater_on_light : Bool → System F → System F × EspErr
  unfolding saved
  set_heater_on_light on s = saved (record s { ctl = record (s.ctl) { heater_on_light = on } })

  unfoldable pub get_water_temp : System F → F
  get_water_temp s = s.ctl.water_temp

  unfoldable pub set_water_temp : F → System F → System F
  unfolding saved_quietly
  set_water_temp temp s = saved_quietly (record s { ctl = record (s.ctl) { water_temp = temp } })

  unfoldable pub get_filtered_water_temp : System F → F
  get_filtered_water_temp s = s.ctl.filtered_water_temp

  unfoldable pub set_filtered_water_temp : F → System F → System F
  unfolding saved_quietly
  set_filtered_water_temp temp s =
      saved_quietly (record s { ctl = record (s.ctl) { filtered_water_temp = temp } })

  unfoldable pub get_air_temp : System F → F
  get_air_temp s = s.ctl.air_temp

  unfoldable pub set_air_temp : F → System F → System F
  unfolding saved_quietly
  set_air_temp temp s = saved_quietly (record s { ctl = record (s.ctl) { air_temp = temp } })

  unfoldable pub get_humidity : System F → F
  get_humidity s = s.ctl.humidity

  unfoldable pub set_humidity : F → System F → System F
  unfolding saved_quietly
  set_humidity value s = saved_quietly (record s { ctl = record (s.ctl) { humidity = value } })

  unfoldable pub get_setpoint_temp : System F → F
  get_setpoint_temp s = s.ctl.setpoint_temp

  unfoldable pub set_setpoint_temp : F → System F → System F
  unfolding saved_quietly
  set_setpoint_temp temp s =
      saved_quietly (record s { ctl = record (s.ctl) { setpoint_temp = temp } })

  unfoldable pub get_high_hysteresis : System F → F
  get_high_hysteresis s = s.ctl.high_hysteresis

  unfoldable pub set_high_hysteresis : F → System F → System F
  unfolding saved_quietly
  set_high_hysteresis temp s =
      saved_quietly (record s { ctl = record (s.ctl) { high_hysteresis = temp } })

  unfoldable pub get_low_hysteresis : System F → F
  get_low_hysteresis s = s.ctl.low_hysteresis

  unfoldable pub set_low_hysteresis : F → System F → System F
  unfolding saved_quietly
  set_low_hysteresis temp s =
      saved_quietly (record s { ctl = record (s.ctl) { low_hysteresis = temp } })

  unfoldable pub get_pump_pre_run_time : System F → F
  get_pump_pre_run_time s = s.ctl.pump_pre_run_time

  unfoldable pub set_pump_pre_run_time : F → System F → System F
  unfolding saved_quietly
  set_pump_pre_run_time time s =
      saved_quietly (record s { ctl = record (s.ctl) { pump_pre_run_time = time } })

  unfoldable pub get_pump_post_run_time : System F → F
  get_pump_post_run_time s = s.ctl.pump_post_run_time

  unfoldable pub set_pump_post_run_time : F → System F → System F
  unfolding saved_quietly
  set_pump_post_run_time time s =
      saved_quietly (record s { ctl = record (s.ctl) { pump_post_run_time = time } })

  unfoldable pub get_pump_state : System F → PumpState
  get_pump_state s = s.ctl.pump_state

  unfoldable pub set_pump_state : PumpState → System F → System F
  unfolding saved_quietly
  set_pump_state target_speed s =
      saved_quietly (record s { ctl = record (s.ctl) { pump_state = target_speed } })

  unfoldable pub get_safety_switch : System F → Bool
  get_safety_switch s = s.ctl.safety_switch

  unfoldable pub set_safety_switch : Bool → System F → System F
  unfolding saved_quietly
  set_safety_switch state s =
      saved_quietly (record s { ctl = record (s.ctl) { safety_switch = state } })

  unfoldable pub get_simulation_mode : System F → SimMode
  get_simulation_mode s = s.ctl.simulation_mode

  unfoldable pub set_simulation_mode : SimMode → System F → System F
  unfolding saved_quietly
  set_simulation_mode mode s =
      saved_quietly (record s { ctl = record (s.ctl) { simulation_mode = mode } })

  unfoldable pub get_error_code : System F → ℤ
  get_error_code s = s.ctl.error_code

  unfoldable pub set_error_code : ℤ → System F → System F
  unfolding saved_quietly
  set_error_code code s = saved_quietly (record s { ctl = record (s.ctl) { error_code = code } })

  unfoldable pub set_initial_start_time : List ℕ → System F → System F
  unfolding saved_quietly time_field
  set_initial_start_time time_str s = saved_quietly (record s {
    ctl = record (s.ctl) { initial_start_time = time_field s.ctl.initial_start_time time_str };
  })

  -- The caller's buffer after the copy.
  unfoldable pub get_initial_start_time : List ℕ → ℕ → System F → List ℕ
  unfolding strncpy
  get_initial_start_time buffer size s = strncpy buffer s.ctl.initial_start_time size

  unfoldable pub get_last_update_time : List ℕ → ℕ → System F → List ℕ
  unfolding strncpy
  get_last_update_time buffer size s = strncpy buffer s.ctl.last_update_time size

  -- The one setter that does not ask for a save.
  unfoldable pub set_last_update_time : List ℕ → System F → System F
  unfolding time_field
  set_last_update_time time_str s = record s {
    ctl = record (s.ctl) { last_update_time = time_field s.ctl.last_update_time time_str };
  }

  unfoldable pub get_low_pass_filter_alpha : System F → F
  get_low_pass_filter_alpha s = s.ctl.low_pass_filter_alpha

module _ (fl : FloatOps) where
  open fl use {Float, float_lit, flt}

  -- `DEFAULT_LOW_PASS_FILTER_ALPHA` takes the place of a value outside 0 to 1.
  unfoldable pub set_low_pass_filter_alpha : Float → System Float → System Float
  unfolding saved_quietly
  set_low_pass_filter_alpha alpha s =
      let outside = flt alpha (float_lit 0 0) || flt (float_lit 1 0) alpha in
      saved_quietly (record s {
        ctl = record (s.ctl) { low_pass_filter_alpha = if outside then float_lit 1 1 else alpha };
      })
