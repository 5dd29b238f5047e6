-- ===== src/WebServer/Sound.antt =====
-- Every operation keeps the invariant of the table of WebSocket clients.
use esp32_s3_hot_tub_base.Base.{
  ℕ, ◌+◌, ◌%◌, ◌^◌, ◌≡◌, refl, ◌∙◌, inl, inr, Bool, not, ◌||◌, All, length, ◌==◌, Bool-cases,
  Option-cases, arith,
}
use esp32_s3_hot_tub_base.WebServer.Clients.{
  WsSlot, WsTable, find_slot, change_slot, has_fd, has_key, filled, emptied, track_slot,
  untrack_slot, free_slot,
}
use esp32_s3_hot_tub_base.WebServer.Table.{
  DistinctFds, IsSound, Frees, length-change_slot, change_slot-All, change_slot-DistinctFds,
  filled-DistinctFds,
}

pub record TableInv (w : WsTable) : Type 0 where
  pub four : length w.slots ≡ 4
  pub distinct : DistinctFds w.slots
  pub sound : All IsSound w.slots

abbrev pub changed : (WsSlot → Bool) → (WsSlot → WsSlot) → WsTable → WsTable
changed test f w = record w { slots = change_slot test f w.slots }

-- A change of one slot that keeps its descriptor or frees it.
pub change-TableInv :
    (test : WsSlot → Bool) (f : WsSlot → WsSlot) (w : WsTable)
    → Frees f
    → ((s : WsSlot) → IsSound s → IsSound (f s))
    → TableInv w
    → TableInv (changed test f w)
change-TableInv test f w k sound inv = record {
  four = length-change_slot test f w.slots ∙ inv.four;
  distinct = change_slot-DistinctFds test f w.slots k inv.distinct;
  sound = change_slot-All IsSound test f w.slots (λ s t. sound s) inv.sound;
}

emptied-IsSound : (s : WsSlot) → IsSound s → IsSound (emptied s)
emptied-IsSound s i = ground arith

pub track_slot-TableInv :
    (taken : Bool) (now_us fd : ℕ) (w : WsTable)
    → TableInv w
    → TableInv (track_slot taken now_us fd w).0
unfolding track_slot
track_slot-TableInv taken now_us fd w inv =
    elim (Bool-cases (fd == 0 || not w.has_mutex || not taken)) [
      | inl e ↦ rw e inv
      | inr e ↦ elim (Option-cases (find_slot (has_fd fd) w.slots)) [
        | inr (s, q) ↦ rw e (rw q inv)
        | inl q ↦ elim (Option-cases (find_slot (has_fd 0) w.slots)) [
          | inl z ↦ rw e (rw q (rw z inv))
          | inr (s, z) ↦
              let g = (w.next_generation + 1) % 2 ^ 32 in
              let done : TableInv (record w {
                slots = change_slot (has_fd 0) (filled fd now_us g) w.slots;
                next_generation = g;
              }) =
                record {
                  four = length-change_slot (has_fd 0) (filled fd now_us g) w.slots ∙ inv.four;
                  distinct = filled-DistinctFds fd now_us g w.slots q inv.distinct;
                  sound =
                      change_slot-All IsSound (has_fd 0) (filled fd now_us g) w.slots
                        (λ t u i. (λ nz. omega arith, λ z. refl)) inv.sound;
                } in
              rw e (rw q (rw z done))
        ]
      ]
    ]

pub untrack_slot-TableInv :
    (taken : Bool) (fd : ℕ) (w : WsTable) → TableInv w → TableInv (untrack_slot taken fd w).0
unfolding untrack_slot
untrack_slot-TableInv taken fd w inv =
    let done = change-TableInv (has_fd fd) emptied w (λ s. inr refl) emptied-IsSound inv in
    elim (Bool-cases (fd == 0 || not w.has_mutex || not taken)) [
      | inl e ↦ rw e inv
      | inr e ↦ elim (Option-cases (find_slot (has_fd fd) w.slots)) [
        | inl q ↦ rw e (rw q inv)
        | inr (s, q) ↦ rw e (rw q done)
      ]
    ]

pub free_slot-TableInv :
    (taken : Bool) (fd generation : ℕ) (w : WsTable)
    → TableInv w
    → TableInv (free_slot taken fd generation w).0
unfolding free_slot
free_slot-TableInv taken fd generation w inv =
    let done =
      change-TableInv (has_key fd generation) emptied w (λ s. inr refl) emptied-IsSound inv in
    elim (Bool-cases (fd == 0 || not w.has_mutex || not taken)) [
      | inl e ↦ rw e inv
      | inr e ↦ rw e done
    ]
