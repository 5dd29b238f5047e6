-- ===== src/Watchdog/Preserve.antt =====
-- Every call of the watchdog component keeps its invariant.
use esp32_s3_hot_tub_base.Base.{
  ℕ, zero, suc, ◌≡◌, ◌≢◌, refl, ◌⊎◌, inl, inr, ◌∙◌, sym, Bool, true, List, [], ◌∷◌, Option, none,
  some, replicate, set, length-set, All, ◌||◌, Option-cases, arith,
}
use esp32_s3_hot_tub_base.Esp.{EspErr}
use esp32_s3_hot_tub_base.Watchdog.Slots.{
  Config, default_config, Slot, empty_slot, Watchdog, covers, refresh_required_feed_mask,
  find_index, alloc_slot,
}
use esp32_s3_hot_tub_base.Watchdog.Ops.{
  subscribe, named, finish_registration, slot_of, slot_for, register_task_locked, init,
  register_task, clear_slot, unregister_task,
}
use esp32_s3_hot_tub_base.Watchdog.Invariant.{
  Inv, Distinct, HasHandle, refresh-Inv, find_index-found, slot_of-found, slot_of-absent,
  named-keeps, subscribe-keeps, All-set, Distinct-set, Distinct-clear,
}
use esp32_s3_hot_tub_base.Watchdog.PreserveFeed.{feed_task-Inv}
use esp32_s3_hot_tub_base.Watchdog.Calls.{
  Call, call_init, call_register, call_unregister, call_feed, run_call, run_calls, fresh,
}

-- The slot that a registration writes back has the handle, is active, and goes where the handle was
-- or where no handle was.
slot_for-place :
    (h : ℕ) (w : Watchdog) (i : ℕ) (s : Slot)
    → h ≢ 0
    → slot_for h w.slots ≡ some (i, s)
    → (s.active ≡ true)
      × (s.handle ≡ h)
      × ((find_index h w.slots ≡ none) ⊎ (find_index h w.slots ≡ some i))
unfolding slot_for
slot_for-place h w i s ne e = elim (Option-cases (slot_of h w.slots)) [
  | inr ((j, t), f) ↦
      let q = slot_of-found h w.slots j t f in
      let r = find_index-found h w.slots j t q.0 q.1 in ground arith
  | inl n ↦
      let q = slot_of-absent h w.slots ne n in
      elim (Option-cases (alloc_slot w.slots)) [
        | inl a ↦ absurd (ground arith)
        | inr (j, a) ↦ ground arith
      ]
]

finish_registration-Inv :
    (added : EspErr) (n : Option (List ℕ)) (h i : ℕ) (s : Slot) (w : Watchdog)
    → h ≢ 0
    → Inv w
    → s.active ≡ true
    → s.handle ≡ h
    → (find_index h w.slots ≡ none) ⊎ (find_index h w.slots ≡ some i)
    → Inv (finish_registration added n i s w).0
unfolding finish_registration
finish_registration-Inv added n h i s w ne inv a e f =
    let t : Slot = (subscribe w.enabled added (named n s)).0 in
    let k = subscribe-keeps w.enabled added (named n s) in
    let m = named-keeps n s in
    let te : t.handle ≡ h = k.1 ∙ m.1 ∙ e in
    refresh-Inv (record w { slots = set w.slots i t }) (length-set w.slots i t ∙ inv.slots_full)
      inv.seen_full (All-set HasHandle i t w.slots (λ b z. ne (sym te ∙ z)) inv.handles)
      (Distinct-set h i t w.slots te inv.distinct f)

register_task-Inv :
    (taken : Bool) (added : EspErr) (h : ℕ) (n : Option (List ℕ)) (w : Watchdog)
    → Inv w
    → Inv (register_task taken added h n w).0
unfolding register_task register_task_locked
register_task-Inv taken added h n w inv = elim (Option-cases (slot_for h w.slots)) [
  | inl e ↦ ground arith
  | inr ((i, s), e) ↦
      ground (arith, finish_registration-Inv added n h i s w, slot_for-place h w i s)
]

clear_slot-Inv :
    (deleted : EspErr) (i : ℕ) (s : Slot) (w : Watchdog) → Inv w → Inv (clear_slot deleted i s w)
unfolding clear_slot
clear_slot-Inv deleted i s w inv =
    refresh-Inv (record w { slots = set w.slots i empty_slot })
      (length-set w.slots i empty_slot ∙ inv.slots_full) inv.seen_full
      (All-set HasHandle i empty_slot w.slots (λ b. absurd (ground arith)) inv.handles)
      (Distinct-clear i empty_slot w.slots refl inv.distinct)

unregister_task-Inv :
    (taken : Bool) (deleted : EspErr) (h : ℕ) (w : Watchdog)
    → Inv w
    → Inv (unregister_task taken deleted h w).0
unfolding unregister_task
unregister_task-Inv taken deleted h w inv = elim (Option-cases (slot_of h w.slots)) [
  | inl e ↦ ground arith
  | inr ((i, s), e) ↦ ground (arith, clear_slot-Inv deleted i s w)
]

init-Inv :
    (created taken : Bool) (re ini : EspErr) (hz : ℕ) (c : Option Config) (w : Watchdog)
    → Inv w
    → Inv (init created taken re ini hz c w).0
unfolding init
init-Inv created taken re ini hz c w inv =
    let effective : Config = elim c [ none ↦ default_config | some d ↦ d ] in
    let m : Watchdog = record w { mutex = w.mutex || created } in
    let m_inv : Inv m = record {
      slots_full = inv.slots_full;
      seen_full = inv.seen_full;
      required_is = inv.required_is;
      handles = inv.handles;
      distinct = inv.distinct;
      seen_required = inv.seen_required;
    } in
    let started : Watchdog = record m {
      config = effective;
      enabled = effective.enabled;
      initialized = true;
    } in
    let done : Inv (refresh_required_feed_mask started) =
      refresh-Inv started inv.slots_full inv.seen_full inv.handles inv.distinct in
    ground arith

-- Every call keeps the invariant.
pub run_call-Inv : (c : Call) (w : Watchdog) → Inv w → Inv (run_call c w).0
unfolding run_call
run_call-Inv (call_init created taken re ini hz c) w inv = init-Inv created taken re ini hz c w inv
run_call-Inv (call_register taken added h n) w inv = register_task-Inv taken added h n w inv
run_call-Inv (call_unregister taken deleted h) w inv = unregister_task-Inv taken deleted h w inv
run_call-Inv (call_feed taken was_reset h) w inv = feed_task-Inv taken was_reset h w inv

run_calls-keeps-Inv : (cs : List Call) (w : Watchdog) → Inv w → Inv (run_calls cs w)
unfolding run_calls
run_calls-keeps-Inv [] w inv = inv
run_calls-keeps-Inv (c ∷ cs) w inv = run_calls-keeps-Inv cs (run_call c w).0 (run_call-Inv c w inv)

replicate-All {ℓ} : {A : Type 0} (P : A → Type ℓ) (n : ℕ) (a : A) → P a → All P (replicate n a)
replicate-All P zero a p = tt
replicate-All P (suc n) a p = (p, replicate-All P n a p)

fresh-Distinct : (n : ℕ) → Distinct (replicate n empty_slot)
fresh-Distinct zero = tt
fresh-Distinct (suc n) = (λ b. absurd (ground arith), fresh-Distinct n)

fresh-Inv : Inv fresh
unfolding covers find_index
fresh-Inv = record {
  slots_full = refl;
  seen_full = refl;
  required_is = refl;
  handles = replicate-All HasHandle 8 empty_slot (λ b. absurd (ground arith));
  distinct = fresh-Distinct 8;
  seen_required = refl;
}

-- From a fresh start, after any calls with any answers of the lock and the task watchdog, there are
-- eight slots and eight feed bits, the required mask is the set of the active slots, every active
-- slot has a handle, no two have the same, and no feed bit is set for a slot without a task.
pub run_calls-Inv : (cs : List Call) → Inv (run_calls cs fresh)
run_calls-Inv cs = run_calls-keeps-Inv cs fresh fresh-Inv
