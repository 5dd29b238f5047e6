-- ===== src/Watchdog/Invariant.antt =====
-- What every operation of the watchdog component keeps: eight slots and mask bits, the required mask
-- as the set of the active slots, no handle in two of them, and no bit set for a slot without a task.
use esp32_s3_hot_tub_base.Base.{
  ℕ, zero, suc, ◌≡◌, ◌≢◌, refl, ◌⊎◌, inl, inr, ◌∙◌, sym, ap, Bool, true, false, List, [], ◌∷◌,
  Option, none, some, map, set, length, get_elem?, All, Option-cases, arith,
}
use esp32_s3_hot_tub_base.Esp.{EspErr}
use esp32_s3_hot_tub_base.Watchdog.Slots.{
  Slot, Mask, Watchdog, max_tasks, is_required, mask_and, covers, refresh_required_feed_mask,
  find_index, find_slot_by_handle, alloc_slot,
}
use esp32_s3_hot_tub_base.Watchdog.Ops.{subscribe, named, slot_of}

-- No two active slots have the same handle.
abbrev pub Distinct : List Slot → Type 0
Distinct [] = Unit {0}
Distinct (s ∷ ss) = (s.active ≡ true → find_index s.handle ss ≡ none) × Distinct ss

abbrev pub HasHandle : Slot → Type 0
HasHandle s = s.active ≡ true → s.handle ≢ 0

pub find_index-set_ne :
    (h i : ℕ) (t : Slot) (ss : List Slot)
    → (t.active ≡ true → t.handle ≢ h)
    → find_index h ss ≡ none
    → find_index h (set ss i t) ≡ none
unfolding find_index
find_index-set_ne h i t [] ne e = refl
find_index-set_ne h zero t (s ∷ ss) ne e = ground arith
find_index-set_ne h (suc i) t (s ∷ ss) ne e = ground (arith, find_index-set_ne h i t ss ne)

-- A slot may be written for a handle where the handle stood, or anywhere if it stood nowhere.
pub Distinct-set :
    (h i : ℕ) (t : Slot) (ss : List Slot)
    → t.handle ≡ h
    → Distinct ss
    → (find_index h ss ≡ none) ⊎ (find_index h ss ≡ some i)
    → Distinct (set ss i t)
unfolding find_index
Distinct-set h i t [] e d f = tt
Distinct-set h zero t (s ∷ ss) e d f = ground arith
Distinct-set h (suc i) t (s ∷ ss) e d f =
    ground (arith, Distinct-set h i t ss e d.1, find_index-set_ne s.handle i t ss)

pub Distinct-clear :
    (i : ℕ) (t : Slot) (ss : List Slot) → t.active ≡ false → Distinct ss → Distinct (set ss i t)
Distinct-clear i t [] e d = tt
Distinct-clear zero t (s ∷ ss) e d = (λ a. absurd (ground arith), d.1)
Distinct-clear (suc i) t (s ∷ ss) e d = (
  λ a. find_index-set_ne s.handle i t ss (λ b. absurd (ground arith)) (d.0 a),
  Distinct-clear i t ss e d.1,
)

pub All-set {ℓ} :
    {A : Type 0} (P : A → Type ℓ) (i : ℕ) (a : A) (xs : List A)
    → P a
    → All P xs
    → All P (set xs i a)
All-set P i a [] p h = tt
All-set P zero a (x ∷ xs) p h = (p, h.1)
All-set P (suc i) a (x ∷ xs) p h = (h.0, All-set P i a xs p h.1)

pub length-mask_and : (a b : Mask) → length a ≡ length b → length (mask_and a b) ≡ length a
unfolding mask_and
length-mask_and [] b e = refl
length-mask_and (x ∷ a) [] e = absurd (ground arith)
length-mask_and (x ∷ a) (y ∷ b) e = ap suc (length-mask_and a b (ground arith))

pub covers-mask_and : (a b : Mask) → covers b (mask_and a b) ≡ true
unfolding mask_and covers
covers-mask_and [] b = refl
covers-mask_and (x ∷ a) [] = refl
covers-mask_and (x ∷ a) (y ∷ b) = ground (arith, covers-mask_and a b)

pub length-map {κ} : {A B : Type κ} (f : A → B) (xs : List A) → length (map f xs) ≡ length xs
length-map f [] = refl
length-map f (x ∷ xs) = ap suc (length-map f xs)

-- What holds of the statics between two calls.
pub record Inv (w : Watchdog) : Type 0 where
  pub slots_full : length w.slots ≡ max_tasks
  pub seen_full : length w.seen ≡ max_tasks
  pub required_is : w.required ≡ map is_required w.slots
  pub handles : All HasHandle w.slots
  pub distinct : Distinct w.slots
  pub seen_required : covers w.required w.seen ≡ true

-- Slots that keep the invariant get it for the whole state when the masks are refreshed.
pub refresh-Inv :
    (w : Watchdog)
    → length w.slots ≡ max_tasks
    → length w.seen ≡ max_tasks
    → All HasHandle w.slots
    → Distinct w.slots
    → Inv (refresh_required_feed_mask w)
unfolding refresh_required_feed_mask
refresh-Inv w l s h d = record {
  slots_full = l;
  seen_full =
      length-mask_and w.seen (map is_required w.slots)
        (s ∙ sym (length-map is_required w.slots ∙ l))
      ∙ s;
  required_is = refl;
  handles = h;
  distinct = d;
  seen_required = covers-mask_and w.seen (map is_required w.slots);
}

pub find_index-found :
    (h : ℕ) (ss : List Slot) (i : ℕ) (s : Slot)
    → find_index h ss ≡ some i
    → get_elem? ss i ≡ some s
    → (s.active ≡ true) × (s.handle ≡ h)
unfolding find_index
find_index-found h [] i s e g = absurd (ground arith)
find_index-found h (t ∷ ss) zero s e g = ground arith
find_index-found h (t ∷ ss) (suc i) s e g = ground (arith, find_index-found h ss i s)

pub alloc_slot-free :
    (ss : List Slot) (i : ℕ) (s : Slot)
    → alloc_slot ss ≡ some i
    → get_elem? ss i ≡ some s
    → s.active ≡ false
unfolding alloc_slot
alloc_slot-free [] i s e g = absurd (ground arith)
alloc_slot-free (t ∷ ss) zero s e g = ground arith
alloc_slot-free (t ∷ ss) (suc i) s e g = ground (arith, alloc_slot-free ss i s)

-- The slot that a handle has is the first one with it.
pub slot_of-found :
    (h : ℕ) (ss : List Slot) (i : ℕ) (s : Slot)
    → slot_of h ss ≡ some (i, s)
    → (find_index h ss ≡ some i) × (get_elem? ss i ≡ some s)
unfolding slot_of find_slot_by_handle
slot_of-found h ss i s e = elim (Option-cases (find_slot_by_handle h ss)) [
  | inl n ↦ absurd (ground arith)
  | inr (j, f) ↦ elim (Option-cases (get_elem? ss j)) [
    | inl n ↦ absurd (ground arith)
    | inr (t, g) ↦ ground arith
  ]
]

find_index-in_range :
    (h : ℕ) (ss : List Slot) (i : ℕ) → find_index h ss ≡ some i → get_elem? ss i ≢ none
unfolding find_index
find_index-in_range h [] i e n = absurd (ground arith)
find_index-in_range h (s ∷ ss) zero e n = absurd (ground arith)
find_index-in_range h (s ∷ ss) (suc i) e n = ground (arith, find_index-in_range h ss i)

-- No active slot has a handle for which there is no slot.
pub slot_of-absent : (h : ℕ) (ss : List Slot) → h ≢ 0 → slot_of h ss ≡ none → find_index h ss ≡ none
unfolding slot_of find_slot_by_handle
slot_of-absent h ss ne e = elim (Option-cases (find_index h ss)) [
  | inl n ↦ n
  | inr (j, f) ↦ elim (Option-cases (get_elem? ss j)) [
    | inl n ↦ absurd (find_index-in_range h ss j f n)
    | inr (t, g) ↦ absurd (ground arith)
  ]
]

pub named-keeps :
    (n : Option (List ℕ)) (s : Slot)
    → ((named n s).active ≡ s.active) × ((named n s).handle ≡ s.handle)
unfolding named
named-keeps n s = ground arith

pub subscribe-keeps :
    (e : Bool) (added : EspErr) (s : Slot)
    → ((subscribe e added s).0.active ≡ s.active) × ((subscribe e added s).0.handle ≡ s.handle)
unfolding subscribe
subscribe-keeps e added s = ground arith
