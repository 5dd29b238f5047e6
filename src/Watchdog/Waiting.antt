-- ===== src/Watchdog/Waiting.antt =====
-- The slots whose task has not fed, when one more task feeds.
use esp32_s3_hot_tub_base.Base.{
  ℕ, zero, suc, ◌≡◌, ◌≢◌, refl, Bool, true, false, ◌||◌, List, [], ◌∷◌, none, some, map, ◌==◌, set,
  length, get_elem?, arith,
}
use esp32_s3_hot_tub_base.Watchdog.Slots.{Slot, Mask, is_required, covers, is_empty, find_index}
use esp32_s3_hot_tub_base.Watchdog.Invariant.{Distinct}
use esp32_s3_hot_tub_base.Watchdog.Starve.{is_waiting}

-- The list has the number.
unfoldable pub has : ℕ → List ℕ → Bool
has n [] = false
has n (x ∷ xs) = n == x || has n xs

pub not_waiting-covers :
    (p : Slot → Bool) (ss : List Slot) (seen : Mask)
    → ((s : Slot) → is_required s ≡ true → p s ≡ true)
    → is_waiting p ss seen ≡ false
    → covers seen (map is_required ss) ≡ true
unfolding is_waiting covers
not_waiting-covers p [] seen r e = refl
not_waiting-covers p (t ∷ ss) [] r e = ground (arith, not_waiting-covers p ss [] r, r t)
not_waiting-covers p (t ∷ ss) (b ∷ bs) r e = ground (arith, not_waiting-covers p ss bs r, r t)

-- The tasks that are waited for next to the one of a handle.
abbrev pub Rest : ℕ → (Slot → Bool) → (Slot → Bool) → Type 0
Rest h p q = (s : Slot) → q s ≡ true → (s.active ≡ true) × (s.handle ≢ h → p s ≡ true)

pub not_waiting-absent :
    (h : ℕ) (p q : Slot → Bool) (ss : List Slot) (seen : Mask)
    → Rest h p q
    → find_index h ss ≡ none
    → is_waiting p ss seen ≡ false
    → is_waiting q ss seen ≡ false
unfolding is_waiting find_index
not_waiting-absent h p q [] seen r f e = refl
not_waiting-absent h p q (t ∷ ss) [] r f e = ground (arith, not_waiting-absent h p q ss [] r, r t)
not_waiting-absent h p q (t ∷ ss) (b ∷ bs) r f e =
    ground (arith, not_waiting-absent h p q ss bs r, r t)

pub not_waiting-fed :
    (h i : ℕ) (p q : Slot → Bool) (ss : List Slot) (seen : Mask)
    → Rest h p q
    → Distinct ss
    → length seen ≡ length ss
    → find_index h ss ≡ some i
    → is_waiting p ss seen ≡ false
    → is_waiting q ss (set seen i true) ≡ false
unfolding is_waiting find_index
not_waiting-fed h i p q [] seen r d l f e = refl
not_waiting-fed h i p q (t ∷ ss) [] r d l f e = absurd (ground arith)
not_waiting-fed h zero p q (t ∷ ss) (b ∷ bs) r d l f e =
    ground (arith, not_waiting-absent h p q ss bs r, r t, d.0)
not_waiting-fed h (suc i) p q (t ∷ ss) (b ∷ bs) r d l f e =
    ground (arith, not_waiting-fed h i p q ss bs r d.1, r t)

pub required-not_empty :
    (ss : List Slot) (i : ℕ) (s : Slot)
    → get_elem? ss i ≡ some s
    → is_required s ≡ true
    → is_empty (map is_required ss) ≡ false
unfolding is_empty
required-not_empty [] i s g r = absurd (ground arith)
required-not_empty (t ∷ ss) zero s g r = ground arith
required-not_empty (t ∷ ss) (suc i) s g r = ground (arith, required-not_empty ss i s)
