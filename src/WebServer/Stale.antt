-- ===== src/WebServer/Stale.antt =====
-- A client that is gone stays gone through every critical section: no slot has its descriptor together
-- with its generation.
use esp32_s3_hot_tub_base.Base.{
  ℕ, zero, suc, ◌+◌, ◌%◌, ◌^◌, ◌≡◌, ◌≢◌, ◌≤◌, ◌<◌, refl, inl, inr, Bool, true, false, not, ◌||◌,
  List, [], ◌∷◌, Option, none, some, set, get_elem?, ltb, ◌==◌, Bool-cases, Option-cases, arith,
}
use esp32_s3_hot_tub_base.Esp.{EspErr, is_ok}
use esp32_s3_hot_tub_base.WebServer.Clients.{
  WsSlot, WsTable, publish_stats, find_slot, change_slot, has_fd, has_key, filled, emptied,
  track_slot, untrack_slot, free_slot, ws_record_issue, sent_ok, send_failed, finish_slot, is_busy,
  mark_seen, mark_slot,
}
use esp32_s3_hot_tub_base.WebServer.Acts.{
  WsAct, track, untrack, clear, complete, issue, publish, mark, run_ws_act,
}
use esp32_s3_hot_tub_base.WebServer.Closed.{act_cost, IsClosed}

-- A change that gives no slot the key.
abbrev pub KeepsOut : ℕ → ℕ → (WsSlot → WsSlot) → Type 0
KeepsOut fd g f = (s : WsSlot) → has_key fd g (f s) ≡ true → has_key fd g s ≡ true

-- No slot has the key, its generation was handed out, and n more can be handed out before the
-- counter wraps around.
abbrev pub IsGone : ℕ → ℕ → ℕ → WsTable → Type 0
IsGone fd g n w =
    (find_slot (has_key fd g) w.slots ≡ none)
    × (g ≤ w.next_generation)
    × (w.next_generation + n < 2 ^ 32)

change_slot-absent_key :
    (fd g : ℕ) (test : WsSlot → Bool) (f : WsSlot → WsSlot) (ss : List WsSlot)
    → KeepsOut fd g f
    → find_slot (has_key fd g) ss ≡ none
    → find_slot (has_key fd g) (change_slot test f ss) ≡ none
unfolding find_slot change_slot
change_slot-absent_key fd g test f [] k e = refl
change_slot-absent_key fd g test f (s ∷ ss) k e =
    ground (arith, k s, change_slot-absent_key fd g test f ss k)

-- Where no slot has the key, a change of the slot with it changes nothing.
pub change_slot-none :
    (test : WsSlot → Bool) (f : WsSlot → WsSlot) (ss : List WsSlot)
    → find_slot test ss ≡ none
    → change_slot test f ss ≡ ss
unfolding find_slot change_slot
change_slot-none test f [] e = refl
change_slot-none test f (s ∷ ss) e = ground (arith, change_slot-none test f ss)

issue-IsGone :
    (fd g n : ℕ) (a : Bool) (w : WsTable) → IsGone fd g n w → IsGone fd g n (ws_record_issue a w)
unfolding ws_record_issue
issue-IsGone fd g n true w q = q
issue-IsGone fd g n false w q = q

module _ (fd g : ℕ) (nz : fd ≢ 0) where
  emptied-KeepsOut : KeepsOut fd g emptied
  emptied-KeepsOut s e = absurd (ground arith)

  send_failed-KeepsOut : (now_us : ℕ) → KeepsOut fd g (send_failed now_us)
  unfolding send_failed
  send_failed-KeepsOut now_us s e = ground arith

  changed-IsGone :
      (n : ℕ) (test : WsSlot → Bool) (f : WsSlot → WsSlot) (w : WsTable)
      → KeepsOut fd g f
      → IsGone fd g n w
      → IsGone fd g n (record w { slots = change_slot test f w.slots })
  changed-IsGone n test f w k q = (change_slot-absent_key fd g test f w.slots k q.0, q.1, q.2)

  track-IsGone :
      (n : ℕ) (taken : Bool) (now_us d : ℕ) (w : WsTable)
      → IsGone fd g (suc n) w
      → IsGone fd g n (track_slot taken now_us d w).0
  unfolding track_slot
  track-IsGone n taken now_us d w q =
      let next = (w.next_generation + 1) % 2 ^ 32 in
      let e : next ≡ w.next_generation + 1 = omega arith in
      let k : KeepsOut fd g (filled d now_us next) = λ s h. absurd (ground arith) in
      let tracked : WsTable = record w {
        slots = change_slot (has_fd 0) (filled d now_us next) w.slots;
        next_generation = next;
      } in
      let done : IsGone fd g n tracked = (
        change_slot-absent_key fd g (has_fd 0) (filled d now_us next) w.slots k q.0,
        omega arith,
        omega arith,
      ) in
      let same : IsGone fd g n w = (q.0, q.1, omega arith) in
      elim (Bool-cases (d == 0 || not w.has_mutex || not taken)) [
        | inl c ↦ rw c same
        | inr c ↦ elim (Option-cases (find_slot (has_fd d) w.slots)) [
          | inr (s, f) ↦ rw c (rw f same)
          | inl f ↦ elim (Option-cases (find_slot (has_fd 0) w.slots)) [
            | inl z ↦ rw c (rw f (rw z same))
            | inr (s, z) ↦ rw c (rw f (rw z done))
          ]
        ]
      ]

  untrack-IsGone :
      (n : ℕ) (taken : Bool) (d : ℕ) (w : WsTable)
      → IsGone fd g n w
      → IsGone fd g n (untrack_slot taken d w).0
  unfolding untrack_slot
  untrack-IsGone n taken d w q =
      let done = changed-IsGone n (has_fd d) emptied w emptied-KeepsOut q in
      elim (Bool-cases (d == 0 || not w.has_mutex || not taken)) [
        | inl c ↦ rw c q
        | inr c ↦ elim (Option-cases (find_slot (has_fd d) w.slots)) [
          | inl f ↦ rw c (rw f q)
          | inr (s, f) ↦ rw c (rw f done)
        ]
      ]

  clear-IsGone :
      (n : ℕ) (taken : Bool) (d h : ℕ) (w : WsTable)
      → IsGone fd g n w
      → IsGone fd g n (free_slot taken d h w).0
  unfolding free_slot
  clear-IsGone n taken d h w q =
      let done = changed-IsGone n (has_key d h) emptied w emptied-KeepsOut q in
      elim (Bool-cases (d == 0 || not w.has_mutex || not taken)) [
        | inl c ↦ rw c q
        | inr c ↦ rw c done
      ]

  finish-IsGone :
      (n now_us d h : ℕ) (err : EspErr) (w : WsTable)
      → IsGone fd g n w
      → IsGone fd g n (finish_slot now_us d h err w).0
  unfolding finish_slot
  finish-IsGone n now_us d h err w q =
      let key = has_key d h in
      let failed = changed-IsGone n key (send_failed now_us) w (send_failed-KeepsOut now_us) q in
      elim (Bool-cases (is_ok err)) [
        | inl c ↦ rw c (changed-IsGone n key (sent_ok now_us) w (λ s e. e) q)
        | inr c ↦ elim (Option-cases (find_slot key w.slots)) [
          | inl f ↦ rw c (rw f failed)
          | inr (s, f) ↦ rw c (rw f failed)
        ]
      ]

  set-absent_key :
      (i : ℕ) (s t : WsSlot) (ss : List WsSlot)
      → get_elem? ss i ≡ some s
      → has_key fd g t ≡ has_key fd g s
      → find_slot (has_key fd g) ss ≡ none
      → find_slot (has_key fd g) (set ss i t) ≡ none
  unfolding find_slot
  set-absent_key i s t [] e k q = refl
  set-absent_key zero s t (u ∷ ss) e k q = ground arith
  set-absent_key (suc i) s t (u ∷ ss) e k q = ground (arith, set-absent_key i s t ss e k)

  mark-IsGone :
      (n now_us i : ℕ) (o : Option WsSlot) (w : WsTable)
      → get_elem? w.slots i ≡ o
      → IsGone fd g n w
      → IsGone fd g n (mark_seen now_us i o w).0
  unfolding mark_seen
  mark-IsGone n now_us i none w e q = q
  mark-IsGone n now_us i (some s) w e q =
      let done : IsGone fd g n
          (record w { slots = set w.slots i (record s { send_inflight = true }) }) =
        (set-absent_key i s (record s { send_inflight = true }) w.slots e refl q.0, q.1, q.2) in
      elim (Bool-cases (ltb 0 s.fd)) [
        | inr z ↦ rw z q
        | inl z ↦ elim (Bool-cases (is_busy now_us s)) [
          | inl b ↦ rw z (rw b q)
          | inr b ↦ rw z (rw b done)
        ]
      ]

  act-IsGone :
      (n : ℕ) (a : WsAct) (w : WsTable)
      → IsGone fd g (act_cost a + n) w
      → IsGone fd g n (run_ws_act a w)
  unfolding run_ws_act publish_stats mark_slot
  act-IsGone n (track taken now_us d) w q = track-IsGone n taken now_us d w (q.0, q.1, omega arith)
  act-IsGone n (untrack taken d) w q = untrack-IsGone n taken d w (q.0, q.1, omega arith)
  act-IsGone n (clear taken d h) w q = clear-IsGone n taken d h w (q.0, q.1, omega arith)
  act-IsGone n (complete now_us d h err) w q =
      finish-IsGone n now_us d h err w (q.0, q.1, omega arith)
  act-IsGone n (issue dropped) w q = issue-IsGone fd g n dropped w (q.0, q.1, omega arith)
  act-IsGone n (publish served missed c) w q = (q.0, q.1, omega arith)
  act-IsGone n (mark now_us i) w q =
      mark-IsGone n now_us i (get_elem? w.slots i) w refl (q.0, q.1, omega arith)

  pub IsGone-IsClosed : IsClosed (IsGone fd g)
  IsGone-IsClosed = record { act = act-IsGone; fewer = λ m n w le q. (q.0, q.1, omega arith) }
