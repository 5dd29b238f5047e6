-- ===== src/HotTub/Callbacks/Params.antt =====
-- components/hot_tub_controller/src/hot_tub_callbacks.c: the parameter of a command, the reply, and
-- the command for the whole status. Allocations of cJSON are taken to succeed.
use esp32_s3_hot_tub_base.Base.{ℕ, Bool, List, Option, none, some, if◌then◌else◌}
use esp32_s3_hot_tub_base.Esp.{is_ok}
use esp32_s3_hot_tub_base.Float.Ops.{FloatOps}
use esp32_s3_hot_tub_base.Json.Items.{Cjson}
use esp32_s3_hot_tub_base.HotTub.State.{HotTub, pump_to_int, sim_to_int, as_unsigned}
use esp32_s3_hot_tub_base.HotTub.Persist.{System, snapshot_get}

module _ {D : Type 0} (js : Cjson D) where
  open js use {Item, get_object_item, is_object, child, add_string, add_item}

  -- `parse_json_param`: the value of the first member of `params`; no command looks at its name.
  unfoldable pub parse_json_param : Item → Option Item
  parse_json_param root = elim (get_object_item root "params") [
    | none ↦ none
    | some params ↦ if is_object params then child params else none
  ]

  -- `hottub_callback_response`
  unfoldable pub callback_response : Item → Item → Item
  callback_response root response = add_item (add_string root "status" "ok") "response" response

  -- The start of every command that writes: without a parameter it returns at once.
  unfoldable pub with_param {ℓ} : {S : Type ℓ} → Item → S → (Item → S × Item) → S × Item
  unfolding parse_json_param
  with_param root s body = elim (parse_json_param root) [ none ↦ (s, root) | some item ↦ body item ]

module _ (fl : FloatOps) (js : Cjson fl.Double) where
  open fl use {Float, widen, of_int}
  open js use {Item, create_object, add_bool, add_number, add_c_string}

  -- `hot_tub_controller_to_json`, of pointers that are not NULL.
  unfoldable pub to_json : Item → HotTub Float → Item
  to_json json st =
      let j = add_bool json "safetySwitch" st.safety_switch in
      let j = add_bool j "heaterOn" st.heater_on in
      let j = add_bool j "autoMode" st.auto_mode in
      let j = add_bool j "tempUnitCelsius" st.temp_unit_celsius in
      let j = add_bool j "pumpOnLight" st.pump_on_light in
      let j = add_bool j "heaterOnLight" st.heater_on_light in
      let j = add_number j "waterTemp" (widen st.water_temp) in
      let j = add_number j "filteredWaterTemp" (widen st.filtered_water_temp) in
      let j = add_number j "airTemp" (widen st.air_temp) in
      let j = add_number j "humidity" (widen st.humidity) in
      let j = add_number j "setpointTemp" (widen st.setpoint_temp) in
      let j = add_number j "lowPassFilterAlpha" (widen st.low_pass_filter_alpha) in
      let j = add_number j "highHysteresis" (widen st.high_hysteresis) in
      let j = add_number j "lowHysteresis" (widen st.low_hysteresis) in
      let j = add_number j "pumpState" (of_int (as_unsigned (pump_to_int st.pump_state))) in
      let j = add_number j "pumpPreRunTime" (widen st.pump_pre_run_time) in
      let j = add_number j "pumpPostRunTime" (widen st.pump_post_run_time) in
      let j =
        add_number j "simulationMode" (of_int (as_unsigned (sim_to_int st.simulation_mode))) in
      let j = add_number j "errorCode" (of_int st.error_code) in
      let j = add_c_string j "initialStartTime" st.initial_start_time in
      add_c_string j "lastUpdateTime" st.last_update_time

  -- `hottub_status_get_callback`, by the outcome of the lock, the uninitialised local buffer, and
  -- the bytes of the field that `get_current_time` leaves.
  unfoldable pub status_get_callback :
      Bool → HotTub Float → List ℕ → Item → System Float → System Float × Item
  unfolding snapshot_get to_json callback_response
  status_get_callback taken buffer now root s =
      let (err, snapshot) = snapshot_get taken buffer s in
      if is_ok err
      then (
        s,
        callback_response js root
            (to_json create_object (record snapshot { last_update_time = now })),
      )
      else (s, root)
