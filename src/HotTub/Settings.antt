-- ===== src/HotTub/Settings.antt =====
-- components/hot_tub_controller/src/hot_tub_controller.c: the settings' limits, the temperature
-- filter, and loading the settings at start.
use esp32_s3_hot_tub_base.Base.{Bool, true, false, ◌||◌, if◌then◌else◌}
use esp32_s3_hot_tub_base.Esp.{EspErr, ok, fail, is_ok}
use esp32_s3_hot_tub_base.Float.Ops.{FloatOps}
use esp32_s3_hot_tub_base.HotTub.State.{HotTub, pump_off, sim_none}
use esp32_s3_hot_tub_base.HotTub.Persist.{System, NvsDriver, settings_save, settings_load}
use esp32_s3_hot_tub_base.HotTub.StructIo.{
  set_setpoint_temp, set_low_pass_filter_alpha, set_high_hysteresis, set_low_hysteresis,
  set_pump_pre_run_time, set_pump_post_run_time, set_temp_unit_celsius, set_auto_mode,
  set_safety_switch, set_simulation_mode, set_pump_state, set_heater_on, set_pump_on_light,
  set_heater_on_light,
}

module _ (fl : FloatOps) where
  open fl use {
    Float, Double, float_lit, double_lit, widen, narrow, flt, dlt, fadd, fsub, fmul, fdiv, roundf,
  }

  -- `x < lo || x > hi`: a float against two constants of type double.
  unfoldable pub outside : Float → Double → Double → Bool
  outside x lo hi = dlt (widen x) lo || dlt hi (widen x)

  -- `hot_tub_controller_verify_hysteresis`, of a state that is not NULL.
  unfoldable pub verify_hysteresis : HotTub Float → HotTub Float
  unfolding outside
  verify_hysteresis h =
      let one = narrow (double_lit 1 0) in
      let low =
        if outside h.low_hysteresis (double_lit 1 1) (double_lit 5 0)
        then one
        else h.low_hysteresis in
      let high =
        if outside h.high_hysteresis (double_lit 1 1) (double_lit 5 0)
        then one
        else h.high_hysteresis in
      record h { low_hysteresis = low; high_hysteresis = high }

  -- A pump run time inside 1 to 20 seconds, or the default 2.
  unfoldable pub verified_run_time : Float → Float
  unfolding outside
  verified_run_time x =
      if outside x (double_lit 1 0) (double_lit 20 0) then narrow (double_lit 2 0) else x

  -- `hot_tub_controller_verify_pump_delay_times`, of a state that is not NULL.
  unfoldable pub verify_pump_delay_times : HotTub Float → HotTub Float
  unfolding verified_run_time
  verify_pump_delay_times h = record h {
    pump_pre_run_time = verified_run_time h.pump_pre_run_time;
    pump_post_run_time = verified_run_time h.pump_post_run_time;
  }

  unfoldable pub clamp_alpha : Float → Float
  clamp_alpha alpha =
      if flt alpha (float_lit 0 0)
      then float_lit 0 0
      else (if flt (float_lit 1 0) alpha then float_lit 1 0 else alpha)

  -- `hottub_controller_temperature_filter`
  unfoldable pub temperature_filter : Float → Float → Float → Float
  unfolding clamp_alpha
  temperature_filter new_temp prev_temp alpha =
      let a = clamp_alpha alpha in
      fdiv
        (roundf (
          fmul (fadd (fmul a new_temp) (fmul (fsub (float_lit 1 0) a) prev_temp)) (float_lit 10 0)))
        (float_lit 10 0)

  -- The default settings, each through its setter, in the order of the source.
  unfoldable pub set_defaults : System Float → System Float
  set_defaults s0 =
      let s1 = set_setpoint_temp (narrow (double_lit 32 0)) s0 in
      let s2 = set_low_pass_filter_alpha fl (float_lit 1 1) s1 in
      let s3 = set_high_hysteresis (narrow (double_lit 1 0)) s2 in
      let s4 = set_low_hysteresis (narrow (double_lit 1 0)) s3 in
      let s5 = set_pump_pre_run_time (narrow (double_lit 2 0)) s4 in
      let s6 = set_pump_post_run_time (narrow (double_lit 2 0)) s5 in
      let s7 = (set_temp_unit_celsius true s6).0 in
      let s8 = (set_auto_mode false s7).0 in
      let s9 = set_safety_switch false s8 in
      let s10 = set_simulation_mode sim_none s9 in
      let s11 = set_pump_state pump_off s10 in
      let s12 = (set_heater_on false s11).0 in
      let s13 = (set_pump_on_light false s12).0 in (set_heater_on_light false s13).0

  module _ (nvs : NvsDriver (HotTub Float)) where
    open nvs use {Flash, flash_init}

    -- `nvs_flash_init`, tried once more after a failure.
    unfoldable pub init_flash : Flash → EspErr × Flash
    init_flash f = let (err, f') = flash_init f in if is_ok err then (err, f') else flash_init f'

    -- `hot_tub_controller_load_saved_settings`; the two locks are those of the load and the save.
    unfoldable pub load_saved_settings :
        Bool → Bool → HotTub Float → System Float → Flash → System Float × EspErr × Flash
    unfolding init_flash set_defaults settings_load settings_save
    load_saved_settings load_taken save_taken zero_state s f =
        let (err, f1) = init_flash f in
        if is_ok err
        then (let (s', err', f2) = settings_load nvs load_taken s f1 in
            if is_ok err'
            then (s', ok, f2)
            else (let d = set_defaults s' in
                let (err'', f3) = settings_save nvs save_taken zero_state d f2 in
                (d, (if is_ok err'' then ok else fail), f3)))
        else (s, fail, f1)
