-- ===== src/Watchdog/PreserveFeed.antt =====
-- A feed keeps the invariant of the watchdog component.
use esp32_s3_hot_tub_base.Base.{
  ℕ, zero, suc, ◌≡◌, ◌≢◌, refl, inl, inr, ◌∙◌, sym, subst, Bool, true, false, List, [], ◌∷◌, some,
  map, replicate, set, length-set, length-replicate, get_elem?, All, Option-cases, arith,
}
use esp32_s3_hot_tub_base.Esp.{EspErr}
use esp32_s3_hot_tub_base.Watchdog.Slots.{
  Slot, Mask, Watchdog, max_tasks, is_required, covers, feed_rtc_wdt_if_quorum,
}
use esp32_s3_hot_tub_base.Watchdog.Ops.{slot_of, feed_slot, feed_task}
use esp32_s3_hot_tub_base.Watchdog.Invariant.{Inv, HasHandle, find_index-found, slot_of-found}

covers-none : (required : Mask) (n : ℕ) → covers required (replicate n false) ≡ true
unfolding covers
covers-none required zero = refl
covers-none [] (suc n) = ground (arith, covers-none [] n)
covers-none (r ∷ rs) (suc n) = ground (arith, covers-none rs n)

covers-set :
    (ss : List Slot) (seen : Mask) (i : ℕ) (s : Slot)
    → get_elem? ss i ≡ some s
    → is_required s ≡ true
    → covers (map is_required ss) seen ≡ true
    → covers (map is_required ss) (set seen i true) ≡ true
unfolding covers
covers-set [] seen i s g r c = absurd (ground arith)
covers-set (t ∷ ss) [] i s g r c = refl
covers-set (t ∷ ss) (b ∷ bs) zero s g r c = ground arith
covers-set (t ∷ ss) (b ∷ bs) (suc i) s g r c = ground (arith, covers-set ss bs i s)

feed_rtc-Inv : (w : Watchdog) → Inv w → Inv (feed_rtc_wdt_if_quorum w)
unfolding feed_rtc_wdt_if_quorum
feed_rtc-Inv w inv =
    let fed : Inv (record w { rtc_feeds = suc w.rtc_feeds; seen = replicate max_tasks false }) =
      record {
        slots_full = inv.slots_full;
        seen_full = length-replicate max_tasks false;
        required_is = inv.required_is;
        handles = inv.handles;
        distinct = inv.distinct;
        seen_required = covers-none w.required max_tasks;
      } in
    ground arith

pub All-get {ℓ} :
    {A : Type 0} (P : A → Type ℓ) (xs : List A) (i : ℕ) (a : A)
    → get_elem? xs i ≡ some a
    → All P xs
    → P a
All-get P [] i a e h = absurd (ground arith)
All-get P (x ∷ xs) zero a e h = subst P (ground arith) h.0
All-get P (x ∷ xs) (suc i) a e h = All-get P xs i a e h.1

feed_slot-Inv :
    (was_reset : EspErr) (i : ℕ) (s : Slot) (w : Watchdog)
    → get_elem? w.slots i ≡ some s
    → s.active ≡ true
    → Inv w
    → Inv (feed_slot was_reset i s w).0
unfolding feed_slot
feed_slot-Inv was_reset i s w g a inv =
    let w' : Watchdog = record w { seen = set w.seen i true } in
    let nz : s.handle ≢ 0 = All-get HasHandle w.slots i s g inv.handles a in
    let seen' : Inv w' = record {
      slots_full = inv.slots_full;
      seen_full = length-set w.seen i true ∙ inv.seen_full;
      required_is = inv.required_is;
      handles = inv.handles;
      distinct = inv.distinct;
      seen_required =
          subst (λ r. covers r (set w.seen i true) ≡ true) (sym inv.required_is)
            (covers-set w.slots w.seen i s g (ground arith)
              (subst (λ r. covers r w.seen ≡ true) inv.required_is inv.seen_required));
    } in
    ground (arith, feed_rtc-Inv w')

pub feed_task-Inv :
    (taken : Bool) (was_reset : EspErr) (h : ℕ) (w : Watchdog)
    → Inv w
    → Inv (feed_task taken was_reset h w).0
unfolding feed_task
feed_task-Inv taken was_reset h w inv = elim (Option-cases (slot_of h w.slots)) [
  | inl e ↦ ground arith
  | inr ((i, s), e) ↦
      let q = slot_of-found h w.slots i s e in
      let r = find_index-found h w.slots i s q.0 q.1 in
      ground (arith, feed_slot-Inv was_reset i s w)
]
