-- ===== src/Watchdog/Fallback.antt =====
-- The RTC watchdog as the fallback that it is meant to be: no sequence of calls feeds it while a
-- registered task is missing.
use esp32_s3_hot_tub_base.Base.{
  ℕ, ◌≡◌, ◌≢◌, refl, ◌⊎◌, inl, inr, ◌∙◌, sym, ap, Bool, true, false, not, ◌&&◌, List, [], ◌∷◌,
  Option, some, ◌==◌, set, get_elem?, All, Option-cases, arith,
}
use esp32_s3_hot_tub_base.Esp.{EspErr}
use esp32_s3_hot_tub_base.Watchdog.Slots.{Config, Slot, Watchdog, is_required, alloc_slot}
use esp32_s3_hot_tub_base.Watchdog.Ops.{
  subscribe, named, finish_registration, slot_of, slot_for, register_task_locked, init,
  register_task,
}
use esp32_s3_hot_tub_base.Watchdog.Invariant.{
  find_index-found, slot_of-found, named-keeps, subscribe-keeps, alloc_slot-free,
}
use esp32_s3_hot_tub_base.Watchdog.Preserve.{run_call-Inv}
use esp32_s3_hot_tub_base.Watchdog.Calls.{
  Call, call_init, call_register, call_unregister, call_feed, run_call, run_calls,
}
use esp32_s3_hot_tub_base.Watchdog.Starve.{
  is_waiting-set_slot, Spares, Waits, StillWaits, feed_task-Waits, unregister_task-Waits,
  refresh-Waits, refresh_required_feed_mask-keeps,
}

module _ (p : Slot → Bool) (required : (s : Slot) → p s ≡ true → is_required s ≡ true) where
  -- The slot to register in is the one that the handle has, or a free one, which does not wait.
  slot_for-spared :
      (h : ℕ) (w : Watchdog) (i : ℕ) (s old : Slot)
      → slot_for h w.slots ≡ some (i, s)
      → get_elem? w.slots i ≡ some old
      → (p old ≡ false) ⊎ ((old ≡ s) × (s.handle ≡ h))
  unfolding slot_for
  slot_for-spared h w i s old e g = elim (Option-cases (slot_of h w.slots)) [
    | inr ((j, t), f) ↦
        let q = slot_of-found h w.slots j t f in
        let r = find_index-found h w.slots j t q.0 q.1 in inr (ground arith)
    | inl n ↦ elim (Option-cases (alloc_slot w.slots)) [
      | inl a ↦ absurd (ground arith)
      | inr (j, a) ↦ inl (ground (arith, required old, alloc_slot-free w.slots i old))
    ]
  ]

  finish_registration-Waits :
      (added : EspErr) (n : Option (List ℕ)) (i : ℕ) (s : Slot) (w : Watchdog)
      → ((old : Slot)
          → get_elem? w.slots i ≡ some old
          → p old ≡ true
          → p (subscribe w.enabled added (named n s)).0 ≡ true)
      → Waits p w
      → StillWaits p w (finish_registration added n i s w).0
  unfolding finish_registration
  finish_registration-Waits added n i s w keeps waits =
      let t : Slot = (subscribe w.enabled added (named n s)).0 in
      let w' : Watchdog = record w { slots = set w.slots i t } in
      ground (
        arith,
        refresh-Waits p required w',
        refresh_required_feed_mask-keeps w',
        is_waiting-set_slot p w.slots w.seen i t keeps,
      )

  register_task-Waits :
      (taken : Bool) (added : EspErr) (h : ℕ) (n : Option (List ℕ)) (w : Watchdog)
      → Spares p (call_register taken added h n)
      → Waits p w
      → StillWaits p w (register_task taken added h n w).0
  unfolding register_task register_task_locked
  register_task-Waits taken added h n w spares waits = elim (Option-cases (slot_for h w.slots)) [
    | inl e ↦ ground arith
    | inr ((i, s), e) ↦
        let keeps : (old : Slot)
            → get_elem? w.slots i ≡ some old
            → p old ≡ true
            → p (subscribe w.enabled added (named n s)).0 ≡ true =
          λ old g o. elim (slot_for-spared h w i s old e g) [
            | inl f ↦ absurd (ground arith)
            | inr q ↦ spares w.enabled s q.1 (sym (ap p q.0) ∙ o)
          ] in
        ground (arith, finish_registration-Waits added n i s w keeps waits)
  ]

  init-Waits :
      (created taken : Bool) (re ini : EspErr) (hz : ℕ) (c : Option Config) (w : Watchdog)
      → Waits p w
      → StillWaits p w (init created taken re ini hz c w).0
  unfolding init
  init-Waits created taken re ini hz c w waits = ground arith

  run_call-Waits :
      (c : Call) (w : Watchdog) → Spares p c → Waits p w → StillWaits p w (run_call c w).0
  unfolding run_call
  run_call-Waits (call_init created taken re ini hz c) w s q =
      init-Waits created taken re ini hz c w q
  run_call-Waits (call_register taken added h n) w s q = register_task-Waits taken added h n w s q
  run_call-Waits (call_unregister taken deleted h) w s q =
      unregister_task-Waits p required taken deleted h w s q
  run_call-Waits (call_feed taken was_reset h) w s q =
      feed_task-Waits p required taken was_reset h w s q

  run_calls-Waits :
      (cs : List Call) (w : Watchdog)
      → All (Spares p) cs
      → Waits p w
      → (run_calls cs w).rtc_feeds ≡ w.rtc_feeds
  unfolding run_calls
  run_calls-Waits [] w s q = refl
  run_calls-Waits (c ∷ cs) w s q =
      let r = run_call-Waits c w s.0 q in
      run_calls-Waits cs (run_call c w).0 s.1 (run_call-Inv c w q.0, r.0, r.1, r.2) ∙ r.3

-- The slot is the task's.
abbrev pub belongs : ℕ → Slot → Bool
belongs h s = s.active && s.handle == h

-- The slot is the task's, and the task watchdog did not take it.
abbrev pub is_unwatched : ℕ → Slot → Bool
is_unwatched h s = belongs h s && not s.subscribed

-- A call that does not feed or unregister the task.
abbrev pub NotOf : ℕ → Call → Type 0
NotOf h (call_unregister taken deleted h') = h' ≢ h
NotOf h (call_feed taken was_reset h') = h' ≢ h
NotOf h _ = Unit {0}

-- A call that does not register or unregister the task.
abbrev pub NotAgain : ℕ → Call → Type 0
NotAgain h (call_register taken added h' n) = h' ≢ h
NotAgain h (call_unregister taken deleted h') = h' ≢ h
NotAgain h _ = Unit {0}

NotOf-Spares : (h : ℕ) (c : Call) → NotOf h c → Spares (belongs h) c
NotOf-Spares h (call_init created taken re ini hz c) q = tt
NotOf-Spares h (call_register taken added h' n) q =
    λ e s b o. ground (arith, subscribe-keeps e added (named n s), named-keeps n s)
NotOf-Spares h (call_unregister taken deleted h') q = λ s b. ground arith
NotOf-Spares h (call_feed taken was_reset h') q = λ s b u. ground arith

NotAgain-Spares : (h : ℕ) (c : Call) → NotAgain h c → Spares (is_unwatched h) c
NotAgain-Spares h (call_init created taken re ini hz c) q = tt
NotAgain-Spares h (call_register taken added h' n) q = λ e s b o. absurd (ground arith)
NotAgain-Spares h (call_unregister taken deleted h') q = λ s b. ground arith
NotAgain-Spares h (call_feed taken was_reset h') q = λ s b u. ground arith

All-imp {ℓ κ} :
    {A : Type 0} {P : A → Type ℓ} {Q : A → Type κ}
    → ((a : A) → P a → Q a)
    → (xs : List A) → All P xs
    → All Q xs
All-imp f [] h = tt
All-imp f (x ∷ xs) h = (f x h.0, All-imp f xs h.1)

-- With the policy that asks for all tasks, in a state that calls can reach after the start, as
-- long as a registered task (its handle not NULL) with a bit still unset does not feed and is not
-- unregistered, no sequence of other calls feeds the RTC watchdog.
pub silent_task_starves :
    (h : ℕ) (w : Watchdog) (cs : List Call)
    → h ≢ 0
    → Waits (belongs h) w
    → All (NotOf h) cs
    → (run_calls cs w).rtc_feeds ≡ w.rtc_feeds
silent_task_starves h w cs ne waits others =
    run_calls-Waits (belongs h) (λ s b. ground arith) cs w (All-imp (NotOf-Spares h) cs others)
      waits

-- With the policy that asks for all tasks, in a state that calls can reach after the start, a task
-- (its handle not NULL) that is registered with its bit unset but that the task watchdog did not
-- take keeps the RTC watchdog from being fed, however often all tasks feed, until it is registered
-- or unregistered again.
pub unsubscribed_task_starves :
    (h : ℕ) (w : Watchdog) (cs : List Call)
    → h ≢ 0
    → Waits (is_unwatched h) w
    → All (NotAgain h) cs
    → (run_calls cs w).rtc_feeds ≡ w.rtc_feeds
unsubscribed_task_starves h w cs ne waits others =
    run_calls-Waits (is_unwatched h) (λ s b. ground arith) cs w
      (All-imp (NotAgain-Spares h) cs others) waits
