-- ===== src/Watchdog/Starve.antt =====
-- Under the policy that asks for all tasks, a registered task that does not feed, or that the task
-- watchdog did not take, keeps the RTC watchdog from being fed.
use esp32_s3_hot_tub_base.Base.{
  ℕ, zero, suc, ◌≡◌, refl, inl, inr, ◌∙◌, ap, Bool, true, false, not, ◌&&◌, ◌||◌, List, [], ◌∷◌,
  some, map, set, get_elem?, Option-cases, arith,
}
use esp32_s3_hot_tub_base.Esp.{EspErr}
use esp32_s3_hot_tub_base.Watchdog.Slots.{
  all, Slot, empty_slot, Mask, Watchdog, is_required, mask_and, covers, quorum_satisfied,
  refresh_required_feed_mask, feed_rtc_wdt_if_quorum,
}
use esp32_s3_hot_tub_base.Watchdog.Ops.{
  subscribe, named, slot_of, clear_slot, unregister_task, feed_slot, feed_task,
}
use esp32_s3_hot_tub_base.Watchdog.Invariant.{Inv, find_index-found, slot_of-found}
use esp32_s3_hot_tub_base.Watchdog.Calls.{
  Call, call_init, call_register, call_unregister, call_feed,
}

-- A slot with the property has no bit in the mask.
unfoldable pub is_waiting : (Slot → Bool) → List Slot → Mask → Bool
is_waiting p [] seen = false
is_waiting p (s ∷ ss) [] = p s || is_waiting p ss []
is_waiting p (s ∷ ss) (b ∷ bs) = p s && not b || is_waiting p ss bs

is_waiting-set_seen :
    (p : Slot → Bool) (ss : List Slot) (seen : Mask) (i : ℕ) (s : Slot)
    → get_elem? ss i ≡ some s
    → p s ≡ false
    → is_waiting p ss seen ≡ true
    → is_waiting p ss (set seen i true) ≡ true
unfolding is_waiting
is_waiting-set_seen p [] seen i s g f e = absurd (ground arith)
is_waiting-set_seen p (t ∷ ss) [] i s g f e = e
is_waiting-set_seen p (t ∷ ss) (b ∷ bs) zero s g f e =
    let q : p t ≡ false = ap p (ground arith) ∙ f in ground arith
is_waiting-set_seen p (t ∷ ss) (b ∷ bs) (suc i) s g f e =
    ground (arith, is_waiting-set_seen p ss bs i s)

-- Writing a slot that keeps the property keeps the waiting slot.
pub is_waiting-set_slot :
    (p : Slot → Bool) (ss : List Slot) (seen : Mask) (i : ℕ) (t : Slot)
    → ((s : Slot) → get_elem? ss i ≡ some s → p s ≡ true → p t ≡ true)
    → is_waiting p ss seen ≡ true
    → is_waiting p (set ss i t) seen ≡ true
unfolding is_waiting
is_waiting-set_slot p [] seen i t g e = absurd (ground arith)
is_waiting-set_slot p (u ∷ ss) [] zero t g e = ground (arith, g u refl)
is_waiting-set_slot p (u ∷ ss) (b ∷ bs) zero t g e = ground (arith, g u refl)
is_waiting-set_slot p (u ∷ ss) [] (suc i) t g e = ground (arith, is_waiting-set_slot p ss [] i t g)
is_waiting-set_slot p (u ∷ ss) (b ∷ bs) (suc i) t g e =
    ground (arith, is_waiting-set_slot p ss bs i t g)

is_waiting-none :
    (p : Slot → Bool) (ss : List Slot) (seen : Mask)
    → is_waiting p ss seen ≡ true
    → is_waiting p ss [] ≡ true
unfolding is_waiting
is_waiting-none p [] seen e = e
is_waiting-none p (t ∷ ss) [] e = e
is_waiting-none p (t ∷ ss) (b ∷ bs) e = ground (arith, is_waiting-none p ss bs)

is_waiting-mask_and :
    (p : Slot → Bool) (ss : List Slot) (seen m : Mask)
    → is_waiting p ss seen ≡ true
    → is_waiting p ss (mask_and seen m) ≡ true
unfolding is_waiting mask_and
is_waiting-mask_and p [] seen m e = absurd (ground arith)
is_waiting-mask_and p (t ∷ ss) [] m e = e
is_waiting-mask_and p (t ∷ ss) (b ∷ bs) [] e = ground (arith, is_waiting-none p ss bs)
is_waiting-mask_and p (t ∷ ss) (b ∷ bs) (r ∷ rs) e = ground (arith, is_waiting-mask_and p ss bs rs)

-- A required slot without a bit fails the quorum of all.
is_waiting-covers :
    (p : Slot → Bool) (ss : List Slot) (seen : Mask)
    → ((s : Slot) → p s ≡ true → is_required s ≡ true)
    → is_waiting p ss seen ≡ true
    → covers seen (map is_required ss) ≡ false
unfolding is_waiting covers
is_waiting-covers p [] seen r e = absurd (ground arith)
is_waiting-covers p (t ∷ ss) [] r e = ground (arith, is_waiting-covers p ss [] r, r t)
is_waiting-covers p (t ∷ ss) (b ∷ bs) r e = ground (arith, is_waiting-covers p ss bs r, r t)

slot_same :
    (ss : List Slot) (i : ℕ) (s t : Slot)
    → get_elem? ss i ≡ some s
    → get_elem? ss i ≡ some t
    → (s ≡ t) × (s.handle ≡ t.handle)
slot_same ss i s t e f = ground arith

-- A call that leaves the waiting slot as it is.
abbrev pub Spares : (Slot → Bool) → Call → Type 0
Spares p (call_init created taken re ini hz c) = Unit {0}
Spares p (call_register taken added h n) =
    (e : Bool) (s : Slot) → s.handle ≡ h → p s ≡ true → p (subscribe e added (named n s)).0 ≡ true
Spares p (call_unregister taken deleted h) = (s : Slot) → s.handle ≡ h → p s ≡ false
Spares p (call_feed taken was_reset h) =
    (s : Slot) → s.handle ≡ h → s.subscribed ≡ true → p s ≡ false

abbrev pub Waits : (Slot → Bool) → Watchdog → Type 0
Waits p w =
    Inv w
    × (w.config.quorum_policy ≡ all)
    × (w.initialized ≡ true)
    × (is_waiting p w.slots w.seen ≡ true)

-- What a call does to a state in which a slot waits.
abbrev pub StillWaits : (Slot → Bool) → Watchdog → Watchdog → Type 0
StillWaits p w w' =
    (w'.config.quorum_policy ≡ all)
    × (w'.initialized ≡ true)
    × (is_waiting p w'.slots w'.seen ≡ true)
    × (w'.rtc_feeds ≡ w.rtc_feeds)

pub refresh_required_feed_mask-keeps :
    (w : Watchdog)
    → let w' = refresh_required_feed_mask w in
      (w'.config ≡ w.config) × (w'.initialized ≡ w.initialized) × (w'.rtc_feeds ≡ w.rtc_feeds)
unfolding refresh_required_feed_mask
refresh_required_feed_mask-keeps w = (refl, refl, refl)

module _ (p : Slot → Bool) (required : (s : Slot) → p s ≡ true → is_required s ≡ true) where
  feed_rtc-Waits :
      (w : Watchdog)
      → w.required ≡ map is_required w.slots
      → w.config.quorum_policy ≡ all
      → is_waiting p w.slots w.seen ≡ true
      → feed_rtc_wdt_if_quorum w ≡ w
  unfolding feed_rtc_wdt_if_quorum quorum_satisfied
  feed_rtc-Waits w r a e =
      let q : covers w.seen w.required ≡ false =
        ap (covers w.seen) r ∙ is_waiting-covers p w.slots w.seen required e in
      ground arith

  pub refresh-Waits :
      (w : Watchdog)
      → is_waiting p w.slots w.seen ≡ true
      → is_waiting p (refresh_required_feed_mask w).slots (refresh_required_feed_mask w).seen ≡ true
  unfolding refresh_required_feed_mask
  refresh-Waits w e = is_waiting-mask_and p w.slots w.seen (map is_required w.slots) e

  pub feed_task-Waits :
      (taken : Bool) (was_reset : EspErr) (h : ℕ) (w : Watchdog)
      → Spares p (call_feed taken was_reset h)
      → Waits p w
      → StillWaits p w (feed_task taken was_reset h w).0
  unfolding feed_task feed_slot
  feed_task-Waits taken was_reset h w spares waits = elim (Option-cases (slot_of h w.slots)) [
    | inl e ↦ ground arith
    | inr ((i, s), e) ↦
        let q = slot_of-found h w.slots i s e in
        let r = find_index-found h w.slots i s q.0 q.1 in
        let fed : Watchdog = record w { seen = set w.seen i true } in
        ground (
          arith,
          spares s,
          is_waiting-set_seen p w.slots w.seen i s q.1,
          feed_rtc-Waits fed waits.0.required_is,
        )
  ]

  pub unregister_task-Waits :
      (taken : Bool) (deleted : EspErr) (h : ℕ) (w : Watchdog)
      → Spares p (call_unregister taken deleted h)
      → Waits p w
      → StillWaits p w (unregister_task taken deleted h w).0
  unfolding unregister_task clear_slot
  unregister_task-Waits taken deleted h w spares waits = elim (Option-cases (slot_of h w.slots)) [
    | inl e ↦ ground arith
    | inr ((i, s), e) ↦
        let q = slot_of-found h w.slots i s e in
        let r = find_index-found h w.slots i s q.0 q.1 in
        let w' : Watchdog = record w { slots = set w.slots i empty_slot } in
        ground (
          arith,
          refresh-Waits w',
          refresh_required_feed_mask-keeps w',
          spares s,
          is_waiting-set_slot p w.slots w.seen i empty_slot
              (λ u g b. absurd (ground (arith, spares u, slot_same w.slots i u s g q.1))),
        )
  ]
