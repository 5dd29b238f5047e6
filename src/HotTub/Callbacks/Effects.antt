-- ===== src/HotTub/Callbacks/Effects.antt =====
-- What commands do to the shared state, and what the control loop makes of it.
use esp32_s3_hot_tub_base.Base.{
  ℕ, zero, suc, ◌≡◌, refl, ◌∙◌, ap, sym, subst, Bool, true, false, List, some, arith,
}
use esp32_s3_hot_tub_base.Base.Int.{ℤ, pos, negsuc, is_positive}
use esp32_s3_hot_tub_base.Base.Text.{same_text_iff}
use esp32_s3_hot_tub_base.Float.Ops.{FloatOps}
use esp32_s3_hot_tub_base.Json.Items.{Cjson}
use esp32_s3_hot_tub_base.Json.Registry.{string_member, dispatcher_core0, run_command}
use esp32_s3_hot_tub_base.HotTub.State.{
  HotTub, PumpState, pump_off, pump_low, pump_of_int, pump_to_int, SimMode, sim_of_int, sim_to_int,
}
use esp32_s3_hot_tub_base.HotTub.Persist.{System, mark_dirty}
use esp32_s3_hot_tub_base.HotTub.StructIo.{
  set_pump_state, get_pump_state, set_simulation_mode, get_simulation_mode,
}
use esp32_s3_hot_tub_base.HotTub.Control.{Loop, control_round, heat_satisfied}
use esp32_s3_hot_tub_base.HotTub.Heating.{tested}
use esp32_s3_hot_tub_base.HotTub.Lockout.{stopped_round}
use esp32_s3_hot_tub_base.HotTub.Callbacks.Params.{parse_json_param, callback_response}
use esp32_s3_hot_tub_base.HotTub.Callbacks.Getters.{
  pump_state_get_callback, simulation_mode_get_callback,
}
use esp32_s3_hot_tub_base.HotTub.Callbacks.Setters.{
  pump_state_set_callback, simulation_mode_set_callback,
}
use esp32_s3_hot_tub_base.HotTub.Callbacks.Table.{hot_tub_callbacks}
use esp32_s3_hot_tub_base.HotTub.Callbacks.Dispatch.{registered, registered_command_runs}

pump_to_int-pump_of_int : (n : ℤ) → pump_to_int (pump_of_int n) ≡ n
unfolding pump_of_int
pump_to_int-pump_of_int (pos zero) = refl
pump_to_int-pump_of_int (pos (suc zero)) = refl
pump_to_int-pump_of_int (pos (suc (suc zero))) = refl
pump_to_int-pump_of_int (pos (suc (suc (suc n)))) = refl
pump_to_int-pump_of_int (negsuc n) = refl

sim_to_int-sim_of_int : (n : ℤ) → sim_to_int (sim_of_int n) ≡ n
unfolding sim_of_int
sim_to_int-sim_of_int (pos zero) = refl
sim_to_int-sim_of_int (pos (suc zero)) = refl
sim_to_int-sim_of_int (pos (suc (suc zero))) = refl
sim_to_int-sim_of_int (pos (suc (suc (suc zero)))) = refl
sim_to_int-sim_of_int (pos (suc (suc (suc (suc n))))) = refl
sim_to_int-sim_of_int (negsuc n) = refl

module _ (fl : FloatOps) (js : Cjson fl.Double) where
  open fl use {Float, of_int}
  open js use {Item, valueint, add_number, create_object}

  set_pump_state-ctl :
      (p : PumpState) (s : System Float)
      → (set_pump_state p s).ctl ≡ record (s.ctl) { pump_state = p }
  unfolding set_pump_state mark_dirty
  set_pump_state-ctl p s = ground arith

  pump_state_set-ctl :
      (root item : Item) (s : System Float)
      → parse_json_param js root ≡ some item
      → (pump_state_set_callback fl js root s).0.ctl
        ≡ record (s.ctl) { pump_state = pump_of_int (valueint item) }
  unfolding pump_state_set_callback
  pump_state_set-ctl root item s e =
      ground (arith, set_pump_state-ctl (pump_of_int (valueint item)) s)

  set_simulation_mode-ctl :
      (m : SimMode) (s : System Float)
      → (set_simulation_mode m s).ctl ≡ record (s.ctl) { simulation_mode = m }
  unfolding set_simulation_mode mark_dirty
  set_simulation_mode-ctl m s = ground arith

  simulation_mode_set-ctl :
      (root item : Item) (s : System Float)
      → parse_json_param js root ≡ some item
      → (simulation_mode_set_callback fl js root s).0.ctl
        ≡ record (s.ctl) { simulation_mode = sim_of_int (valueint item) }
  unfolding simulation_mode_set_callback
  simulation_mode_set-ctl root item s e =
      ground (arith, set_simulation_mode-ctl (sim_of_int (valueint item)) s)

  dispatcher-pump_state :
      (taken : Bool) (buffer : HotTub Float) (now : List ℕ) (root : Item) (s : System Float)
      → string_member js root "type" ≡ some "req"
      → string_member js root "cmd" ≡ some "hottub.pump.state.set"
      → dispatcher_core0 js (registered fl js taken buffer now) root s
        ≡ pump_state_set_callback fl js root s
  unfolding dispatcher_core0 hot_tub_callbacks
  dispatcher-pump_state taken buffer now root s t c =
      let q : run_command (registered fl js taken buffer now) "hottub.pump.state.set" root s
          ≡ pump_state_set_callback fl js root s =
        (registered_command_runs fl js taken buffer now root
          s).1.1.1.1.1.1.1.1.1.1.1.1.1.1.1.1.1.1.1.1.1.1.1.1.0 in
      ground (arith, same_text_iff "req" "req", q)

  -- With the table registered, a request that sets the pump to 0 while the heater is on, in auto
  -- mode and below the target, stops the heater in the next control round and locks heating out;
  -- with a post-run to do the pump is on low again after that round.
  pub pump_off_request :
      (taken : Bool) (buffer : HotTub Float) (now : List ℕ) (root item : Item) (s : System Float)
      (loop : Loop)
      → string_member js root "type" ≡ some "req"
      → string_member js root "cmd" ≡ some "hottub.pump.state.set"
      → parse_json_param js root ≡ some item
      → valueint item ≡ pos 0
      → s.ctl.heater_on ≡ true
      → s.ctl.auto_mode ≡ true
      → heat_satisfied fl (tested fl (record (s.ctl) { pump_state = pump_off })) ≡ false
      → let q =
          control_round fl loop
            (dispatcher_core0 js (registered fl js taken buffer now) root s).0.ctl in
        (q.snap.heater_on ≡ false)
        × (q.loop.heat_lockout ≡ true)
        × (is_positive q.loop.post_pump_timer ≡ true → q.snap.pump_state ≡ pump_low)
  unfolding pump_of_int
  pump_off_request taken buffer now root item s loop t c p v on auto cold =
      let stopped : HotTub Float = record (s.ctl) { pump_state = pump_off } in
      let e : (dispatcher_core0 js (registered fl js taken buffer now) root s).0.ctl ≡ stopped =
        ap (λ r. r.0.ctl) (dispatcher-pump_state taken buffer now root s t c)
        ∙ pump_state_set-ctl root item s p
        ∙ ap (λ n. record (s.ctl) { pump_state = pump_of_int n }) v in
      let q = stopped_round fl loop stopped (refl, on, auto, cold) in
      subst
        (λ h.
          ((control_round fl loop h).snap.heater_on ≡ false)
          × ((control_round fl loop h).loop.heat_lockout ≡ true)
          × (is_positive (control_round fl loop h).loop.post_pump_timer ≡ true
              → (control_round fl loop h).snap.pump_state ≡ pump_low))
        (sym e) (q.0, q.1, q.3)

  -- A command that sets the pump takes any integer, and the command that reads it then replies
  -- with that integer; the command for the simulation mode does the same; the message has a
  -- parameter.
  pub any_pump_state_read_back :
      (root root' item : Item) (s : System Float)
      → parse_json_param js root ≡ some item
      → ((pump_state_get_callback fl js root' (pump_state_set_callback fl js root s).0).1
          ≡ callback_response js root'
              (add_number create_object "pump.state.get" (of_int (valueint item))))
        × ((simulation_mode_get_callback fl js root'
              (simulation_mode_set_callback fl js root s).0).1
            ≡ callback_response js root'
                (add_number create_object "simulation.mode.get" (of_int (valueint item))))
  unfolding pump_state_get_callback simulation_mode_get_callback get_pump_state get_simulation_mode
  any_pump_state_read_back root root' item s e = (
    ap (λ n. callback_response js root' (add_number create_object "pump.state.get" (of_int n)))
        (ap (λ h. pump_to_int h.pump_state) (pump_state_set-ctl root item s e)
          ∙ pump_to_int-pump_of_int (valueint item)),
    ap (λ n. callback_response js root' (add_number create_object "simulation.mode.get" (of_int n)))
        (ap (λ h. sim_to_int h.simulation_mode) (simulation_mode_set-ctl root item s e)
          ∙ sim_to_int-sim_of_int (valueint item)),
  )
