-- ===== src/Watchdog/Calls.antt =====
-- components/app_watchdog/src/app_watchdog.c: the calls that other components make, each with what
-- the lock and the platform answer.
use esp32_s3_hot_tub_base.Base.{ℕ, Bool, false, List, [], ◌∷◌, Option, replicate}
use esp32_s3_hot_tub_base.Esp.{EspErr}
use esp32_s3_hot_tub_base.Watchdog.Slots.{Config, default_config, empty_slot, Watchdog, max_tasks}
use esp32_s3_hot_tub_base.Watchdog.Ops.{init, register_task, unregister_task, feed_task}

-- A call of the component with the answers of the lock and of the task watchdog's functions.
pub data Call : Type 0 where
  call_init : Bool → Bool → EspErr → EspErr → ℕ → Option Config → Call
  call_register : Bool → EspErr → ℕ → Option (List ℕ) → Call
  call_unregister : Bool → EspErr → ℕ → Call
  call_feed : Bool → EspErr → ℕ → Call

unfoldable pub run_call : Call → Watchdog → Watchdog × EspErr
run_call (call_init created taken re ini hz c) w = init created taken re ini hz c w
run_call (call_register taken added h n) w = register_task taken added h n w
run_call (call_unregister taken deleted h) w = unregister_task taken deleted h w
run_call (call_feed taken was_reset h) w = feed_task taken was_reset h w

unfoldable pub run_calls : List Call → Watchdog → Watchdog
unfolding run_call
run_calls [] w = w
run_calls (c ∷ cs) w = run_calls cs (run_call c w).0

-- The statics before the first call.
abbrev pub fresh : Watchdog
fresh = record {
  mutex = false;
  initialized = false;
  enabled = false;
  config = default_config;
  slots = replicate max_tasks empty_slot;
  required = replicate max_tasks false;
  seen = replicate max_tasks false;
  rtc_feeds = 0;
}
