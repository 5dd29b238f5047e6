-- ===== src/HotTub/State.antt =====
-- components/hot_tub_controller/include/hot_tub_globals.h: the controller's state and its
-- enumerations, and C strings in fixed arrays.
use esp32_s3_hot_tub_base.Base.{
  ℕ, zero, suc, ◌-◌, ◌%◌, ◌^◌, Bool, true, false, List, [], ◌∷◌, ◌++◌, length, take, drop,
  replicate, ◌==◌, if◌then◌else◌,
}
use esp32_s3_hot_tub_base.Base.Int.{ℤ, pos, negsuc}

-- `pump_state_t`. An object of the C type can hold any integer: `other` is one with no name.
pub data PumpState : Type 0 where
  pump_off pump_low pump_high : PumpState
  pump_other : ℤ → PumpState

-- `(pump_state_t)n`
unfoldable pub pump_of_int : ℤ → PumpState
pump_of_int (pos zero) = pump_off
pump_of_int (pos (suc zero)) = pump_low
pump_of_int (pos (suc (suc zero))) = pump_high
pump_of_int n = pump_other n

-- `(int)state`
abbrev pub pump_to_int : PumpState → ℤ
pump_to_int pump_off = pos 0
pump_to_int pump_low = pos 1
pump_to_int pump_high = pos 2
pump_to_int (pump_other n) = n

-- The value of an enumeration of type `unsigned int` as a number.
abbrev pub as_unsigned : ℤ → ℤ
as_unsigned (pos n) = pos (n % 2 ^ 32)
as_unsigned (negsuc n) = pos (2 ^ 32 - 1 - n % 2 ^ 32)

-- `sim_mode_t`
pub data SimMode : Type 0 where
  sim_none sim_manual sim_physics sim_triangle : SimMode
  sim_other : ℤ → SimMode

-- `(sim_mode_t)n`
unfoldable pub sim_of_int : ℤ → SimMode
sim_of_int (pos zero) = sim_none
sim_of_int (pos (suc zero)) = sim_manual
sim_of_int (pos (suc (suc zero))) = sim_physics
sim_of_int (pos (suc (suc (suc zero)))) = sim_triangle
sim_of_int n = sim_other n

-- `(int)mode`
abbrev pub sim_to_int : SimMode → ℤ
sim_to_int sim_none = pos 0
sim_to_int sim_manual = pos 1
sim_to_int sim_physics = pos 2
sim_to_int sim_triangle = pos 3
sim_to_int (sim_other n) = n

-- `state == PUMP_OFF`
abbrev pub is_off : PumpState → Bool
is_off pump_off = true
is_off _ = false

-- `mode == SIM_NONE`
abbrev pub is_sim_none : SimMode → Bool
is_sim_none sim_none = true
is_sim_none _ = false

-- `HotTubController_t` over the type of its `float` fields; a `char` array is the list of its bytes.
pub record HotTub (F : Type 0) : Type 0 where
  pub safety_switch : Bool
  pub heater_on : Bool
  pub auto_mode : Bool
  pub temp_unit_celsius : Bool
  pub pump_on_light : Bool
  pub heater_on_light : Bool
  pub water_temp : F
  pub filtered_water_temp : F
  pub air_temp : F
  pub humidity : F
  pub setpoint_temp : F
  pub low_pass_filter_alpha : F
  pub high_hysteresis : F
  pub low_hysteresis : F
  pub pump_pre_run_time : F
  pub pump_post_run_time : F
  pub pump_state : PumpState
  pub initial_start_time : List ℕ
  pub last_update_time : List ℕ
  pub simulation_mode : SimMode
  pub error_code : ℤ

-- `TIME_BUFFER_SIZE`
abbrev pub time_buffer_size : ℕ
time_buffer_size = 32

-- The C string that starts at an array: the bytes before the first NUL.
unfoldable pub c_string : List ℕ → List ℕ
c_string [] = []
c_string (b ∷ bs) = if b == 0 then [] else b ∷ c_string bs

-- `strncpy(dst, src, n)`: at most n bytes of the string, then NULs up to n; the rest of `dst` stays.
unfoldable pub strncpy : List ℕ → List ℕ → ℕ → List ℕ
strncpy dst src n = let s = c_string src in take n s ++ (replicate (n - length s) 0 ++ drop n dst)
