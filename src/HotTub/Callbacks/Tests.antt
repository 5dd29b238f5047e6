-- ===== src/HotTub/Callbacks/Tests.antt =====
-- The commands of the hot tub on concrete messages.
use esp32_s3_hot_tub_base.Base.{◌≡◌, refl, true, false, []}
use esp32_s3_hot_tub_base.Float.Fixed.{Fixed, fixed, literal}
use esp32_s3_hot_tub_base.Json.Plain.{Value, object, number, text, empty, member, plain, int_of}
use esp32_s3_hot_tub_base.Json.Registry.{dispatcher_core0, string_member, run_command}
use esp32_s3_hot_tub_base.HotTub.Control.{control_round}
use esp32_s3_hot_tub_base.HotTub.Tests.{cold_tub, heating, heating_loop, tub, rounds}
use esp32_s3_hot_tub_base.HotTub.Callbacks.Params.{
  status_get_callback, parse_json_param, callback_response,
}
use esp32_s3_hot_tub_base.HotTub.Callbacks.Getters.{pump_state_get_callback}
use esp32_s3_hot_tub_base.HotTub.Callbacks.Setters.{pump_state_set_callback}
use esp32_s3_hot_tub_base.HotTub.Callbacks.Table.{hot_tub_callbacks}
use esp32_s3_hot_tub_base.HotTub.Callbacks.Dispatch.{registered, registered_command_runs}
use esp32_s3_hot_tub_base.HotTub.Callbacks.NoParam.{no_param_no_change}
use esp32_s3_hot_tub_base.HotTub.Callbacks.Effects.{pump_off_request, any_pump_state_read_back}

-- {"type":"req","cmd":"hottub.pump.state.set","params":{"pump.state.set":n}}
abbrev set_pump : Fixed → Value
set_pump n = object (
    member "type" (text "req") (
      member "cmd" (text "hottub.pump.state.set")
        (member "params" (object (member "pump.state.set" (number n) empty)) empty)))

-- The same without a parameter.
abbrev no_params : Value
no_params = object (
    member "type" (text "req")
      (member "cmd" (text "hottub.pump.state.set") (member "params" (text "") empty)))

registered_command_runs_example :
    run_command
      (registered fixed plain true cold_tub [])
      "hottub.status.get"
      no_params
      (tub cold_tub)
    ≡ status_get_callback fixed plain true cold_tub [] no_params (tub cold_tub)
unfolding hot_tub_callbacks
registered_command_runs_example =
    (registered_command_runs fixed plain true cold_tub [] no_params (tub cold_tub)).0

no_param_no_change_example :
    (dispatcher_core0 plain (registered fixed plain true cold_tub []) no_params (tub cold_tub)).0
    ≡ tub cold_tub
unfolding parse_json_param
no_param_no_change_example =
    no_param_no_change fixed plain true cold_tub [] no_params (tub cold_tub) refl

pump_off_request_example :
    (control_round fixed heating_loop
      (dispatcher_core0 plain
        (registered fixed plain true cold_tub [])
        (set_pump (literal 0 0))
        (tub heating)).0.ctl).snap.heater_on
    ≡ false
unfolding rounds parse_json_param string_member int_of
pump_off_request_example =
    (pump_off_request fixed plain true cold_tub [] (set_pump (literal 0 0)) (number (literal 0 0))
      (tub heating) heating_loop refl refl refl refl refl refl refl).0

any_pump_state_read_back_example :
    (pump_state_get_callback fixed plain no_params
      (pump_state_set_callback fixed plain (set_pump (literal 7 0)) (tub cold_tub)).0).1
    ≡ callback_response plain no_params
        (object (member "pump.state.get" (number (literal 7 0)) empty))
unfolding rounds parse_json_param int_of
any_pump_state_read_back_example =
    (any_pump_state_read_back fixed plain (set_pump (literal 7 0)) no_params (number (literal 7 0))
      (tub cold_tub) refl).0
