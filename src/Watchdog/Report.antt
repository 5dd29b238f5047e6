-- ===== src/Watchdog/Report.antt =====
-- components/app_watchdog/src/app_watchdog.c: the status report.
use esp32_s3_hot_tub_base.Base.{
  ◌≡◌, refl, ap, sym, ◌∙◌, true, ◌≤◌, ◌↔◌, All, map, length, arith, ℕ, suc, Bool, ◌&&◌, List, [],
  ◌∷◌, Option, none, some, ◌==◌, if◌then◌else◌,
}
use esp32_s3_hot_tub_base.Esp.{EspErr, ok, timeout}
use esp32_s3_hot_tub_base.Watchdog.Invariant.{HasHandle, Inv}
use esp32_s3_hot_tub_base.Watchdog.Slots.{
  is_required, covers, quorum_satisfied, all, any, Slot, Mask, Watchdog,
}

-- `app_watchdog_status_t`
pub record Status : Type 0 where
  pub initialized : Bool
  pub enabled : Bool
  pub registered_tasks : ℕ
  pub fed_tasks : ℕ
  pub required_tasks : ℕ

-- The counting loop of `app_watchdog_get_status`: the active slots, and those among them with their
-- bit set.
unfoldable pub count_registered : List Slot → ℕ
count_registered [] = 0
count_registered (s ∷ ss) = let n = count_registered ss in if s.active then suc n else n

unfoldable pub count_fed : List Slot → Mask → ℕ
count_fed [] seen = 0
count_fed (s ∷ ss) [] = 0
count_fed (s ∷ ss) (b ∷ bs) = let n = count_fed ss bs in if s.active && b then suc n else n

-- `app_watchdog_get_status`, of a status that is not NULL and a mutex that exists.
unfoldable pub get_status : Bool → Watchdog → EspErr × Option Status
unfolding count_registered count_fed
get_status taken w =
    let registered : ℕ = count_registered w.slots in
    let needed : ℕ = elim w.config.quorum_policy [
      | all ↦ registered
      | any ↦ if registered == 0 then 0 else 1
    ] in
    if taken
    then (
      ok,
      some (record {
        initialized = w.initialized;
        enabled = w.enabled;
        registered_tasks = registered;
        fed_tasks = count_fed w.slots w.seen;
        required_tasks = needed;
      }),
    )
    else (timeout, none)

count_fed_le : (ss : List Slot) (seen : Mask) → count_fed ss seen ≤ count_registered ss
unfolding count_fed count_registered
count_fed_le [] seen = omega arith
count_fed_le (s ∷ ss) [] = omega arith
count_fed_le (s ∷ ss) (b ∷ bs) = ground (arith, count_fed_le ss bs)

covers-count_fed :
    (ss : List Slot) (seen : Mask)
    → length seen ≡ length ss
    → All HasHandle ss
    → covers seen (map is_required ss) ≡ true
    → count_registered ss ≤ count_fed ss seen
unfolding covers count_fed count_registered
covers-count_fed [] seen l h c = omega arith
covers-count_fed (s ∷ ss) [] l h c = absurd (ground arith)
covers-count_fed (s ∷ ss) (b ∷ bs) l h c = ground (arith, covers-count_fed ss bs, h.0)

count_fed-covers :
    (ss : List Slot) (seen : Mask)
    → length seen ≡ length ss
    → count_registered ss ≤ count_fed ss seen
    → covers seen (map is_required ss) ≡ true
unfolding covers count_fed count_registered
count_fed-covers [] seen l c = refl
count_fed-covers (s ∷ ss) [] l c = absurd (ground arith)
count_fed-covers (s ∷ ss) (b ∷ bs) l c = ground (arith, count_fed-covers ss bs, count_fed_le ss bs)

-- In a state that calls can reach, with the policy for all tasks, a status report shows as many fed
-- tasks as required ones, or more, exactly if the quorum is met.
pub report_tells_quorum :
    (w : Watchdog) (st : Status)
    → Inv w
    → w.config.quorum_policy ≡ all
    → get_status true w ≡ (ok, some st)
    → (quorum_satisfied w.config.quorum_policy w.seen w.required ≡ true)
      ↔ (st.required_tasks ≤ st.fed_tasks)
unfolding get_status quorum_satisfied
report_tells_quorum w st inv policy e =
    let c : covers w.seen w.required ≡ covers w.seen (map is_required w.slots) =
      ap (covers w.seen) inv.required_is in
    let l : length w.seen ≡ length w.slots = inv.seen_full ∙ sym inv.slots_full in
    ground (arith, covers-count_fed w.slots w.seen l inv.handles, count_fed-covers w.slots w.seen l)
