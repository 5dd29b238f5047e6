-- ===== src/HotTub/Callbacks/NoParam.antt =====
-- Messages without a parameter change nothing.
use esp32_s3_hot_tub_base.Base.{
  ℕ, ◌≡◌, refl, sym, subst, inl, inr, Option-cases, Bool, List, [], ◌∷◌, map, none, All, arith,
}
use esp32_s3_hot_tub_base.Base.Text.{String}
use esp32_s3_hot_tub_base.Float.Ops.{FloatOps}
use esp32_s3_hot_tub_base.Json.Items.{Cjson}
use esp32_s3_hot_tub_base.Json.Registry.{run_command, string_member, dispatcher_core0}
use esp32_s3_hot_tub_base.HotTub.State.{HotTub}
use esp32_s3_hot_tub_base.HotTub.Persist.{System}
use esp32_s3_hot_tub_base.HotTub.Callbacks.Params.{
  parse_json_param, with_param, status_get_callback,
}
use esp32_s3_hot_tub_base.HotTub.Callbacks.Getters.{
  auto_mode_get_callback, heater_status_get_callback, temperature_unit_get_callback,
  water_temperature_get_callback, filtered_water_temp_get_callback, simulation_mode_get_callback,
  air_temperature_get_callback, humidity_get_callback, setpoint_temperature_get_callback,
  high_hysteresis_get_callback, low_hysteresis_get_callback, pump_state_get_callback,
  low_pass_filter_alpha_get_callback, safety_switch_get_callback, pump_pre_run_time_get_callback,
  pump_post_run_time_get_callback, error_get_callback,
}
use esp32_s3_hot_tub_base.HotTub.Callbacks.Setters.{
  auto_mode_set_callback, heater_status_set_callback, temperature_unit_set_callback,
  water_temperature_set_callback, filtered_water_temp_set_callback, simulation_mode_set_callback,
  air_temperature_set_callback, humidity_set_callback, setpoint_temperature_set_callback,
  high_hysteresis_set_callback, low_hysteresis_set_callback, pump_state_set_callback,
  low_pass_filter_alpha_set_callback, safety_switch_set_callback, pump_pre_run_time_set_callback,
  pump_post_run_time_set_callback, error_set_callback,
}
use esp32_s3_hot_tub_base.HotTub.Callbacks.Table.{Callback, hot_tub_callbacks}
use esp32_s3_hot_tub_base.HotTub.Callbacks.Dispatch.{entry, registered, registered-lem}

module _ (fl : FloatOps) (js : Cjson fl.Double) where
  open fl use {Float}
  open js use {Item}

  with_param-none :
      (root : Item) (s : System Float) (body : Item → System Float × Item)
      → parse_json_param js root ≡ none
      → (with_param js root s body).0 ≡ s
  unfolding with_param
  with_param-none root s body e = ground arith

  status_get_callback-keeps :
      (taken : Bool) (buffer : HotTub Float) (now : List ℕ) (root : Item) (s : System Float)
      → (status_get_callback fl js taken buffer now root s).0 ≡ s
  unfolding status_get_callback
  status_get_callback-keeps taken buffer now root s = ground arith

  keeps_without_param :
      (taken : Bool) (buffer : HotTub Float) (now : List ℕ) (root : Item) (s : System Float)
      → parse_json_param js root ≡ none
      → All (λ c. (c.1 root s).0 ≡ s) (hot_tub_callbacks fl js taken buffer now)
  unfolding hot_tub_callbacks auto_mode_get_callback heater_status_get_callback
      temperature_unit_get_callback water_temperature_get_callback filtered_water_temp_get_callback
      simulation_mode_get_callback air_temperature_get_callback humidity_get_callback
      setpoint_temperature_get_callback high_hysteresis_get_callback low_hysteresis_get_callback
      pump_state_get_callback low_pass_filter_alpha_get_callback safety_switch_get_callback
      pump_pre_run_time_get_callback pump_post_run_time_get_callback error_get_callback
      auto_mode_set_callback heater_status_set_callback temperature_unit_set_callback
      water_temperature_set_callback filtered_water_temp_set_callback simulation_mode_set_callback
      air_temperature_set_callback humidity_set_callback setpoint_temperature_set_callback
      high_hysteresis_set_callback low_hysteresis_set_callback pump_state_set_callback
      low_pass_filter_alpha_set_callback safety_switch_set_callback pump_pre_run_time_set_callback
      pump_post_run_time_set_callback error_set_callback
  keeps_without_param taken buffer now root s e = (
    status_get_callback-keeps taken buffer now root s,
    (
      refl,
      (
        with_param-none root s _ e,
        (
          refl,
          (
            with_param-none root s _ e,
            (
              refl,
              (
                with_param-none root s _ e,
                (
                  refl,
                  (
                    with_param-none root s _ e,
                    (
                      refl,
                      (
                        with_param-none root s _ e,
                        (
                          refl,
                          (
                            with_param-none root s _ e,
                            (
                              refl,
                              (
                                with_param-none root s _ e,
                                (
                                  refl,
                                  (
                                    with_param-none root s _ e,
                                    (
                                      refl,
                                      (
                                        with_param-none root s _ e,
                                        (
                                          refl,
                                          (
                                            with_param-none root s _ e,
                                            (
                                              refl,
                                              (
                                                with_param-none root s _ e,
                                                (
                                                  refl,
                                                  (
                                                    with_param-none root s _ e,
                                                    (
                                                      refl,
                                                      (
                                                        with_param-none root s _ e,
                                                        (
                                                          refl,
                                                          (
                                                            with_param-none root s _ e,
                                                            (
                                                            refl,
                                                            (
                                                            with_param-none root s _ e,
                                                            (
                                                            refl,
                                                            (
                                                            with_param-none root s _ e,
                                                            (
                                                            refl,
                                                            (with_param-none root s _ e, tt),
                                                            ),
                                                            ),
                                                            ),
                                                            ),
                                                            ),
                                                          ),
                                                        ),
                                                      ),
                                                    ),
                                                  ),
                                                ),
                                              ),
                                            ),
                                          ),
                                        ),
                                      ),
                                    ),
                                  ),
                                ),
                              ),
                            ),
                          ),
                        ),
                      ),
                    ),
                  ),
                ),
              ),
            ),
          ),
        ),
      ),
    ),
  )

  run_command-keeps :
      (cs : List (String × Callback fl js)) (cmd : String) (root : Item) (s : System Float)
      → All (λ c. (c.1 root s).0 ≡ s) cs
      → (run_command (map (entry fl js) cs) cmd root s).0 ≡ s
  unfolding run_command
  run_command-keeps [] cmd root s h = refl
  run_command-keeps ((c, f) ∷ cs) cmd root s h =
      ground (arith, h.0, run_command-keeps cs cmd root s h.1)

  -- With the table registered, a message without a member in an object `params` changes nothing of
  -- the shared state, whatever its type and command.
  pub no_param_no_change :
      (taken : Bool) (buffer : HotTub Float) (now : List ℕ) (root : Item) (s : System Float)
      → parse_json_param js root ≡ none
      → (dispatcher_core0 js (registered fl js taken buffer now) root s).0 ≡ s
  unfolding dispatcher_core0
  no_param_no_change taken buffer now root s e =
      let keeps : (cmd : String)
          → (run_command (registered fl js taken buffer now) cmd root s).0 ≡ s =
        λ cmd.
          subst (λ r. (run_command r cmd root s).0 ≡ s)
            (sym (registered-lem fl js taken buffer now))
            (run_command-keeps (hot_tub_callbacks fl js taken buffer now) cmd root s
              (keeps_without_param taken buffer now root s e)) in
      elim (Option-cases (string_member js root "type")) [
        | inl n ↦ ground arith
        | inr (t, f) ↦ elim (Option-cases (string_member js root "cmd")) [
          | inl n ↦ ground arith
          | inr (c, g) ↦ ground (arith, keeps c)
        ]
      ]
