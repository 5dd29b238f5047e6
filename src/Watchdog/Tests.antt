-- ===== src/Watchdog/Tests.antt =====
-- Runs of the watchdog component at concrete inputs.
use esp32_s3_hot_tub_base.Base.{ℕ, ◌≡◌, ◌<◌, ◌≤◌, ◌↔◌, refl, true, List, [], ◌∷◌, none, arith}
use esp32_s3_hot_tub_base.Esp.{EspErr, ok, fail}
use esp32_s3_hot_tub_base.HotTub.State.{c_string}
use esp32_s3_hot_tub_base.Watchdog.Slots.{
  mask_and, covers, is_empty, quorum_satisfied, refresh_required_feed_mask, feed_rtc_wdt_if_quorum,
  find_index, find_slot_by_handle, alloc_slot, default_config,
}
use esp32_s3_hot_tub_base.Watchdog.Ops.{
  subscribe, unsubscribe, named, finish_registration, slot_of, slot_for, register_task_locked,
  configure_twdt, configure_rtc_wdt, init, register_task, unregister_task, clear_slot, feed_slot,
  feed_task, stage_timeout_ticks,
}
use esp32_s3_hot_tub_base.Watchdog.Invariant.{Inv}
use esp32_s3_hot_tub_base.Watchdog.Preserve.{run_calls-Inv}
use esp32_s3_hot_tub_base.Watchdog.Calls.{
  Call, call_init, call_register, call_feed, run_call, run_calls, fresh,
}
use esp32_s3_hot_tub_base.Watchdog.Starve.{is_waiting}
use esp32_s3_hot_tub_base.Watchdog.Waiting.{has}
use esp32_s3_hot_tub_base.Watchdog.Rounds.{feeds, full_round_feeds}
use esp32_s3_hot_tub_base.Watchdog.Report.{
  Status, get_status, count_registered, count_fed, report_tells_quorum,
}
use esp32_s3_hot_tub_base.Watchdog.Fallback.{silent_task_starves, unsubscribed_task_starves}

-- The functions that a run computes.
unfoldable runs : Unit {0}
unfolding c_string mask_and covers is_empty quorum_satisfied refresh_required_feed_mask
    feed_rtc_wdt_if_quorum find_index find_slot_by_handle alloc_slot default_config subscribe
    unsubscribe named finish_registration slot_of slot_for register_task_locked configure_twdt
    configure_rtc_wdt init register_task unregister_task clear_slot feed_slot feed_task run_call
    run_calls is_waiting
runs = tt

abbrev start : Call
start = call_init true true ok ok 136000 none

abbrev registered : EspErr → ℕ → Call
registered added h = call_register true added h none

abbrev fed : ℕ → Call
fed = call_feed true ok

abbrev two_tasks : List Call
two_tasks = start ∷ registered ok 1 ∷ registered ok 2 ∷ fed 1 ∷ []

both_feed :
    (run_calls (start ∷ registered ok 1 ∷ registered ok 2 ∷ fed 1 ∷ fed 2 ∷ []) fresh).rtc_feeds ≡ 1
unfolding runs
both_feed = refl

default_ticks : stage_timeout_ticks 136000 default_config ≡ 952000
unfolding stage_timeout_ticks default_config
default_ticks = refl

run_calls-Inv_example : Inv (run_calls two_tasks fresh)
run_calls-Inv_example = run_calls-Inv two_tasks

silent_task_starves_example :
    (run_calls (fed 1 ∷ registered ok 3 ∷ fed 3 ∷ fed 1 ∷ []) (run_calls two_tasks fresh)).rtc_feeds
    ≡ (run_calls two_tasks fresh).rtc_feeds
unfolding runs
silent_task_starves_example =
    silent_task_starves 2 (run_calls two_tasks fresh) (fed 1 ∷ registered ok 3 ∷ fed 3 ∷ fed 1 ∷ [])
      (omega arith) (run_calls-Inv two_tasks, refl, refl, refl)
      (omega arith, (tt, (omega arith, (omega arith, tt))))

abbrev refused : List Call
refused = start ∷ registered ok 1 ∷ registered fail 2 ∷ []

unsubscribed_task_starves_example :
    (run_calls (fed 1 ∷ fed 2 ∷ fed 1 ∷ fed 2 ∷ []) (run_calls refused fresh)).rtc_feeds
    ≡ (run_calls refused fresh).rtc_feeds
unfolding runs
unsubscribed_task_starves_example =
    unsubscribed_task_starves 2 (run_calls refused fresh) (fed 1 ∷ fed 2 ∷ fed 1 ∷ fed 2 ∷ [])
      (omega arith) (run_calls-Inv refused, refl, refl, refl) (tt, (tt, (tt, (tt, tt))))

full_round_feeds_example :
    (run_calls two_tasks fresh).rtc_feeds
    < (run_calls (feeds (2 ∷ 1 ∷ [])) (run_calls two_tasks fresh)).rtc_feeds
unfolding runs has
full_round_feeds_example =
    full_round_feeds (2 ∷ 1 ∷ []) (run_calls two_tasks fresh)
      (record {
        inv = run_calls-Inv two_tasks;
        initialized = refl;
        enabled = refl;
        fallback = refl;
        policy = refl;
        subscribed = ground arith;
      })
      refl (omega arith, (omega arith, tt)) (ground arith)

-- After a feed by the first of two tasks the report shows one of two.
abbrev half : Status
half = record {
  initialized = true;
  enabled = true;
  registered_tasks = 2;
  fed_tasks = 1;
  required_tasks = 2;
}

report_tells_quorum_example :
    let w = run_calls two_tasks fresh in
    (quorum_satisfied w.config.quorum_policy w.seen w.required ≡ true)
    ↔ (half.required_tasks ≤ half.fed_tasks)
unfolding runs get_status count_registered count_fed
report_tells_quorum_example =
    report_tells_quorum (run_calls two_tasks fresh) half (run_calls-Inv two_tasks) refl refl
