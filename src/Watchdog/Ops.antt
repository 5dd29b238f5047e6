-- ===== src/Watchdog/Ops.antt =====
-- components/app_watchdog/src/app_watchdog.c: the operations. Whether a timed lock is had, and what
-- the calls of the task watchdog return, are arguments.
use esp32_s3_hot_tub_base.Base.{
  ℕ, ◌*◌, ◌+◌, ◌/◌, ◌%◌, ◌^◌, Bool, true, false, not, ◌||◌, List, [], ◌∷◌, Option, none, some, ◌==◌,
  if◌then◌else◌, set, take, get_elem?,
}
use esp32_s3_hot_tub_base.Esp.{
  EspErr, ok, fail, no_mem, invalid_arg, invalid_state, not_found, timeout, is_ok,
}
use esp32_s3_hot_tub_base.HotTub.State.{c_string}
use esp32_s3_hot_tub_base.Watchdog.Slots.{
  Config, default_config, Slot, empty_slot, Watchdog, refresh_required_feed_mask,
  feed_rtc_wdt_if_quorum, find_slot_by_handle, alloc_slot,
}

-- `unsubscribe_task_locked`, by what `esp_task_wdt_delete` returns.
unfoldable pub unsubscribe : Bool → EspErr → Slot → Slot
unsubscribe enabled deleted s =
    if not s.active || not s.subscribed || not enabled
    then s
    else (if is_ok deleted then record s { subscribed = false } else s)

-- `subscribe_task_locked`, by what `esp_task_wdt_add` returns.
unfoldable pub subscribe : Bool → EspErr → Slot → Slot × EspErr
subscribe enabled added s =
    if not s.active || s.handle == 0 || not enabled || s.subscribed
    then (s, ok)
    else (if is_ok added then (record s { subscribed = true }, ok) else (s, added))

-- The name that registration leaves: `strlcpy` of a name that is given and not empty, "task" for a
-- slot without one.
unfoldable pub named : Option (List ℕ) → Slot → Slot
unfolding c_string
named task_name s =
    let kept : Slot = elim s.name [
      | [] ↦ record s { name = b't' ∷ b'a' ∷ b's' ∷ b'k' ∷ [] }
      | _ ∷ _ ↦ s
    ] in
    elim task_name [
      | none ↦ kept
      | some n ↦ elim (c_string n) [ [] ↦ kept | c ∷ cs ↦ record s { name = take 31 (c ∷ cs) } ]
    ]

-- The end of `register_task_locked`, for the slot at an index.
unfoldable pub finish_registration :
    EspErr → Option (List ℕ) → ℕ → Slot → Watchdog → Watchdog × EspErr
unfolding named subscribe refresh_required_feed_mask
finish_registration added task_name i slot w =
    let (slot', err) = subscribe w.enabled added (named task_name slot) in
    (refresh_required_feed_mask (record w { slots = set w.slots i slot' }), err)

abbrev pub new_slot : ℕ → Slot
new_slot h = record empty_slot { active = true; handle = h }

-- The slot that a handle has, with its index.
unfoldable pub slot_of : ℕ → List Slot → Option (ℕ × Slot)
unfolding find_slot_by_handle
slot_of h slots = elim (find_slot_by_handle h slots) [
  | none ↦ none
  | some i ↦ elim (get_elem? slots i) [ none ↦ none | some s ↦ some (i, s) ]
]

-- The slot to register a handle in: the one it has, or a free one.
unfoldable pub slot_for : ℕ → List Slot → Option (ℕ × Slot)
unfolding slot_of alloc_slot
slot_for h slots = elim (slot_of h slots) [
  | some found ↦ some found
  | none ↦ elim (alloc_slot slots) [ none ↦ none | some i ↦ some (i, new_slot h) ]
]

-- `register_task_locked`
unfoldable pub register_task_locked : EspErr → ℕ → Option (List ℕ) → Watchdog → Watchdog × EspErr
unfolding finish_registration slot_for
register_task_locked added h task_name w =
    if h == 0 then (w, invalid_arg) else elim (slot_for h w.slots) [
      | none ↦ (w, no_mem)
      | some (i, slot) ↦ finish_registration added task_name i slot w
    ]

-- `configure_twdt`, by what `esp_task_wdt_reconfigure` and `esp_task_wdt_init` return.
unfoldable pub configure_twdt : EspErr → EspErr → Config → EspErr
configure_twdt reconfigured initialised c =
    if c.enabled
    then elim reconfigured [ invalid_state ↦ initialised | other_code ↦ other_code ]
    else ok

-- `configure_rtc_wdt`, by the frequency of the slow clock.
unfoldable pub configure_rtc_wdt : ℕ → Config → EspErr
configure_rtc_wdt slow_clk_hz c =
    if not c.enabled || not c.enable_rtc_wdt_fallback
    then ok
    else (if slow_clk_hz == 0 then fail else ok)

-- The timeout that `configure_rtc_wdt` sets, in ticks of the slow clock: the product is of 64 bits
-- and the result is cut to 32.
unfoldable pub stage_timeout_ticks : ℕ → Config → ℕ
stage_timeout_ticks slow_clk_hz c =
    let rtc_timeout_ms = (c.twdt_timeout_s * 1000 + c.rtc_wdt_margin_ms) % 2 ^ 64 in
    (rtc_timeout_ms * slow_clk_hz) % 2 ^ 64 / 1000 % 2 ^ 32

-- `app_watchdog_init`
unfoldable pub init :
    Bool → Bool → EspErr → EspErr → ℕ → Option Config → Watchdog → Watchdog × EspErr
unfolding configure_twdt configure_rtc_wdt default_config refresh_required_feed_mask
init mutex_created taken reconfigured initialised slow_clk_hz config w0 =
    let w = record w0 { mutex = w0.mutex || mutex_created } in
    let effective : Config = elim config [ none ↦ default_config | some c ↦ c ] in
    let ret = configure_twdt reconfigured initialised effective in
    let ret' = if is_ok ret then configure_rtc_wdt slow_clk_hz effective else ret in
    if not w.mutex
    then (w, no_mem)
    else (if not taken
        then (w, timeout)
        else (if w.initialized
            then (w, ok)
            else (if is_ok ret'
                then (
                  refresh_required_feed_mask (record w {
                    config = effective;
                    enabled = effective.enabled;
                    initialized = true;
                  }),
                  ret',
                )
                else (w, ret'))))

-- `app_watchdog_register_task`
unfoldable pub register_task : Bool → EspErr → ℕ → Option (List ℕ) → Watchdog → Watchdog × EspErr
unfolding register_task_locked
register_task taken added h task_name w =
    if not w.initialized
    then (w, invalid_state)
    else (if taken then register_task_locked added h task_name w else (w, timeout))

-- `memset(slot, 0, sizeof(*slot))`
abbrev pub cleared : Slot → Slot
cleared s = empty_slot

-- The end of `app_watchdog_unregister_task`: the slot is cleared whether or not
-- `esp_task_wdt_delete` worked.
unfoldable pub clear_slot : EspErr → ℕ → Slot → Watchdog → Watchdog
unfolding unsubscribe refresh_required_feed_mask
clear_slot deleted i slot w =
    refresh_required_feed_mask
      (record w { slots = set w.slots i (cleared (unsubscribe w.enabled deleted slot)) })

-- `app_watchdog_unregister_task`
unfoldable pub unregister_task : Bool → EspErr → ℕ → Watchdog → Watchdog × EspErr
unfolding slot_of clear_slot
unregister_task taken deleted h w =
    if not w.initialized
    then (w, invalid_state)
    else (if taken
        then elim (slot_of h w.slots) [
          | none ↦ (w, not_found)
          | some (i, slot) ↦ (clear_slot deleted i slot w, ok)
        ]
        else (w, timeout))

-- The end of `app_watchdog_feed_task`, for the slot of the task.
unfoldable pub feed_slot : EspErr → ℕ → Slot → Watchdog → Watchdog × EspErr
unfolding feed_rtc_wdt_if_quorum
feed_slot was_reset i slot w =
    if slot.subscribed
    then (if is_ok was_reset
        then (feed_rtc_wdt_if_quorum (record w { seen = set w.seen i true }), was_reset)
        else (w, was_reset))
    else (w, not_found)

-- `app_watchdog_feed_task`, by what `esp_task_wdt_reset` returns.
unfoldable pub feed_task : Bool → EspErr → ℕ → Watchdog → Watchdog × EspErr
unfolding slot_of feed_slot
feed_task taken was_reset h w =
    if not w.initialized
    then (w, invalid_state)
    else (if not w.enabled
        then (w, ok)
        else (if h == 0
            then (w, invalid_arg)
            else (if not taken then (w, timeout) else elim (slot_of h w.slots) [
              | none ↦ (w, not_found)
              | some (i, slot) ↦ feed_slot was_reset i slot w
            ])))
