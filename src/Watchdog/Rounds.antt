-- ===== src/Watchdog/Rounds.antt =====
-- The RTC watchdog is fed once all registered tasks have fed.
use esp32_s3_hot_tub_base.Base.{
  ℕ, suc, ◌≡◌, ◌≢◌, ◌<◌, ◌≤◌, refl, ◌⊎◌, inl, inr, ◌∙◌, sym, ap, subst, Bool, true, false, not,
  ◌&&◌, ◌||◌, List, [], ◌∷◌, none, some, map, set, length, All, Option-cases, Bool-cases, arith,
}
use esp32_s3_hot_tub_base.Esp.{ok}
use esp32_s3_hot_tub_base.Watchdog.Slots.{
  all, Slot, Mask, Watchdog, is_required, covers, quorum_satisfied, is_empty,
  feed_rtc_wdt_if_quorum, find_index,
}
use esp32_s3_hot_tub_base.Watchdog.Ops.{slot_of, feed_slot, feed_task}
use esp32_s3_hot_tub_base.Watchdog.Invariant.{Inv, find_index-found, slot_of-found, slot_of-absent}
use esp32_s3_hot_tub_base.Watchdog.PreserveFeed.{feed_task-Inv, All-get}
use esp32_s3_hot_tub_base.Watchdog.Calls.{Call, call_feed, run_call, run_calls}
use esp32_s3_hot_tub_base.Watchdog.Starve.{is_waiting}
use esp32_s3_hot_tub_base.Watchdog.Waiting.{
  has, Rest, not_waiting-covers, not_waiting-absent, not_waiting-fed, required-not_empty,
}

abbrev pub Subscribed : Slot → Type 0
Subscribed s = s.active ≡ true → s.subscribed ≡ true

-- The watchdog runs with its fallback and the policy for all tasks, and took every task.
pub record Running (w : Watchdog) : Type 0 where
  pub inv : Inv w
  pub initialized : w.initialized ≡ true
  pub enabled : w.enabled ≡ true
  pub fallback : w.config.enable_rtc_wdt_fallback ≡ true
  pub policy : w.config.quorum_policy ≡ all
  pub subscribed : All Subscribed w.slots

feed_task-keeps :
    (h : ℕ) (w : Watchdog)
    → let w' = (feed_task true ok h w).0 in
      (w'.slots ≡ w.slots)
      × (w'.initialized ≡ w.initialized)
      × (w'.enabled ≡ w.enabled)
      × (w'.config ≡ w.config)
      × (w.rtc_feeds ≤ w'.rtc_feeds)
unfolding feed_task feed_slot feed_rtc_wdt_if_quorum
feed_task-keeps h w = ground arith

feed_task-Running : (h : ℕ) (w : Watchdog) → Running w → Running (feed_task true ok h w).0
feed_task-Running h w run =
    let k = feed_task-keeps h w in
    record {
      inv = feed_task-Inv true ok h w run.inv;
      initialized = k.1 ∙ run.initialized;
      enabled = k.2 ∙ run.enabled;
      fallback = ap (λ c. c.enable_rtc_wdt_fallback) k.3 ∙ run.fallback;
      policy = ap (λ c. c.quorum_policy) k.3 ∙ run.policy;
      subscribed = subst (All Subscribed) (sym k.0) run.subscribed;
    }

-- A feed of a registered task feeds the RTC watchdog, or sets the task's bit and the quorum is
-- still not met.
feed_task-found :
    (h i : ℕ) (s : Slot) (w : Watchdog)
    → Running w
    → h ≢ 0
    → slot_of h w.slots ≡ some (i, s)
    → let w' = (feed_task true ok h w).0 in
      (w'.rtc_feeds ≡ suc w.rtc_feeds)
      ⊎ ((w'.rtc_feeds ≡ w.rtc_feeds)
          × (w'.seen ≡ set w.seen i true)
          × (covers w'.seen (map is_required w.slots) ≡ false))
unfolding feed_task feed_slot feed_rtc_wdt_if_quorum quorum_satisfied
feed_task-found h i s w run ne e =
    let q = slot_of-found h w.slots i s e in
    let r = find_index-found h w.slots i s q.0 q.1 in
    let sub = All-get Subscribed w.slots i s q.1 run.subscribed r.0 in
    let n : is_empty w.required ≡ false =
      ap is_empty run.inv.required_is ∙ required-not_empty w.slots i s q.1 (ground arith) in
    let c : covers (set w.seen i true) w.required
        ≡ covers (set w.seen i true) (map is_required w.slots) =
      ap (covers (set w.seen i true)) run.inv.required_is in
    elim (Bool-cases (covers (set w.seen i true) w.required)) [
      | inl met ↦ inl ground arith
      | inr not_met ↦ inr (ground arith)
    ]

feed_task-absent : (h : ℕ) (w : Watchdog) → slot_of h w.slots ≡ none → (feed_task true ok h w).0 ≡ w
unfolding feed_task
feed_task-absent h w e = ground arith

-- Feeds by the tasks of the handles, in order.
abbrev pub feeds : List ℕ → List Call
feeds hs = map (call_feed true ok) hs

feeds_monotone : (hs : List ℕ) (w : Watchdog) → w.rtc_feeds ≤ (run_calls (feeds hs) w).rtc_feeds
unfolding run_calls run_call
feeds_monotone [] w = omega arith
feeds_monotone (h ∷ hs) w =
    omega (arith, (feed_task-keeps h w).4, feeds_monotone hs (feed_task true ok h w).0)

-- Required tasks that are not among the handles.
abbrev left_out : List ℕ → Slot → Bool
left_out hs s = is_required s && not (has s.handle hs)

-- A required task is among the handles.
abbrev pub some_has : List ℕ → List Slot → Bool
some_has hs [] = false
some_has hs (s ∷ ss) = is_required s && has s.handle hs || some_has hs ss

some_has-nil : (ss : List Slot) → some_has [] ss ≡ false
unfolding has
some_has-nil [] = refl
some_has-nil (s ∷ ss) = ground (arith, some_has-nil ss)

some_has-absent :
    (h : ℕ) (hs : List ℕ) (ss : List Slot)
    → find_index h ss ≡ none
    → some_has (h ∷ hs) ss ≡ some_has hs ss
unfolding has find_index
some_has-absent h hs [] f = refl
some_has-absent h hs (s ∷ ss) f = ground (arith, some_has-absent h hs ss)

left_out-Rest : (h : ℕ) (hs : List ℕ) → Rest h (left_out (h ∷ hs)) (left_out hs)
unfolding has
left_out-Rest h hs s e = (ground arith, λ ne. ground arith)

length-required : (w : Watchdog) → Inv w → length w.seen ≡ length w.slots
length-required w inv = inv.seen_full ∙ sym inv.slots_full

feeds_reach :
    (hs : List ℕ) (w : Watchdog)
    → Running w
    → All (λ h. h ≢ 0) hs
    → is_waiting (left_out hs) w.slots w.seen ≡ false
    → (covers w.seen (map is_required w.slots) ≡ false) ⊎ (some_has hs w.slots ≡ true)
    → w.rtc_feeds < (run_calls (feeds hs) w).rtc_feeds
unfolding run_calls run_call has
feeds_reach [] w run nz e alt =
    let c = not_waiting-covers (left_out []) w.slots w.seen (λ s r. ground arith) e in
    absurd (ground (arith, some_has-nil w.slots))
feeds_reach (h ∷ hs) w run nz e alt =
    let w' : Watchdog = (feed_task true ok h w).0 in
    let k = feed_task-keeps h w in
    elim (Option-cases (slot_of h w.slots)) [
      | inl n ↦
          let f = slot_of-absent h w.slots nz.0 n in
          let same = feed_task-absent h w n in
          let e' =
            not_waiting-absent h (left_out (h ∷ hs)) (left_out hs) w.slots w.seen
              (left_out-Rest h hs) f e in
          subst (λ v. w.rtc_feeds < (run_calls (feeds hs) v).rtc_feeds) (sym same)
            (feeds_reach hs w run nz.1 e'
              (elim alt [ inl c ↦ inl c | inr m ↦ inr (sym (some_has-absent h hs w.slots f) ∙ m) ]))
      | inr ((i, s), f) ↦
          let q = slot_of-found h w.slots i s f in
          elim (feed_task-found h i s w run nz.0 f) [
            | inl up ↦ omega (arith, up, feeds_monotone hs w')
            | inr q' ↦
                let e' =
                  not_waiting-fed h i (left_out (h ∷ hs)) (left_out hs) w.slots w.seen
                    (left_out-Rest h hs) run.inv.distinct (length-required w run.inv) q.0 e in
                subst (λ n. n < (run_calls (feeds hs) w').rtc_feeds) q'.0
                  (feeds_reach hs w' (feed_task-Running h w run) nz.1
                    (ap (λ v. is_waiting (left_out hs) v w'.seen) k.0
                      ∙ ap (is_waiting (left_out hs) w.slots) q'.1
                      ∙ e')
                    (inl (ap (λ v. covers w'.seen (map is_required v)) k.0 ∙ q'.2)))
          ]
    ]

-- The task of the slot is among the handles.
abbrev pub Feeds : List ℕ → Slot → Type 0
Feeds hs s = s.active ≡ true → has s.handle hs ≡ true

is_waiting-everyone :
    (hs : List ℕ) (ss : List Slot) (seen : Mask)
    → All (Feeds hs) ss
    → is_waiting (left_out hs) ss seen ≡ false
unfolding is_waiting
is_waiting-everyone hs [] seen f = refl
is_waiting-everyone hs (s ∷ ss) [] f = ground (arith, is_waiting-everyone hs ss [] f.1, f.0)
is_waiting-everyone hs (s ∷ ss) (b ∷ bs) f = ground (arith, is_waiting-everyone hs ss bs f.1, f.0)

some_has-everyone :
    (hs : List ℕ) (ss : List Slot)
    → All (Feeds hs) ss
    → is_empty (map is_required ss) ≡ false
    → some_has hs ss ≡ true
unfolding is_empty
some_has-everyone hs [] f e = absurd (ground arith)
some_has-everyone hs (s ∷ ss) f e = ground (arith, some_has-everyone hs ss f.1, f.0)

-- When the watchdog runs in a state that calls can reach, with its fallback and the policy for all
-- tasks, took every registered task, and there is one, successful feeds by all of them in any
-- order and number, with others of handles that are not NULL in between, feed the RTC watchdog at
-- least once.
pub full_round_feeds :
    (hs : List ℕ) (w : Watchdog)
    → Running w
    → is_empty w.required ≡ false
    → All (λ h. h ≢ 0) hs
    → All (Feeds hs) w.slots
    → w.rtc_feeds < (run_calls (feeds hs) w).rtc_feeds
full_round_feeds hs w run ne nz f =
    feeds_reach hs w run nz (is_waiting-everyone hs w.slots w.seen f)
      (inr (some_has-everyone hs w.slots f (sym (ap is_empty run.inv.required_is) ∙ ne)))
