-- ===== src/WebServer/Sends.antt =====
-- The critical sections of sends, completions and broadcasts keep the invariant of the table of
-- WebSocket clients.
use esp32_s3_hot_tub_base.Base.{
  ℕ, zero, suc, ◌≡◌, ◌≢◌, refl, ◌∙◌, inl, inr, ap, Bool, true, false, List, [], ◌∷◌, Option, none,
  some, All, set, length-set, get_elem?, ltb, Bool-cases, Option-cases, arith,
}
use esp32_s3_hot_tub_base.Esp.{EspErr, is_ok}
use esp32_s3_hot_tub_base.WebServer.Clients.{
  WsSlot, WsTable, publish_stats, find_slot, has_fd, has_key, ws_record_issue, sent_ok, is_stalled,
  send_failed, finish_slot, is_busy, mark_seen, mark_slot,
}
use esp32_s3_hot_tub_base.WebServer.Acts.{
  WsAct, track, untrack, clear, complete, issue, publish, mark, run_ws_act,
}
use esp32_s3_hot_tub_base.WebServer.Table.{DistinctFds, IsSound, Frees}
use esp32_s3_hot_tub_base.WebServer.Sound.{
  TableInv, change-TableInv, track_slot-TableInv, untrack_slot-TableInv, free_slot-TableInv,
}

sent_ok-IsSound : (now_us : ℕ) (s : WsSlot) → IsSound s → IsSound (sent_ok now_us s)
sent_ok-IsSound now_us s i = (λ nz. omega arith, λ z. refl)

send_failed-IsSound : (now_us : ℕ) (s : WsSlot) → IsSound s → IsSound (send_failed now_us s)
unfolding send_failed is_stalled
send_failed-IsSound now_us s i = ground arith

send_failed-Frees : (now_us : ℕ) → Frees (send_failed now_us)
unfolding send_failed
send_failed-Frees now_us s = ground arith

issue-TableInv : (dropped : Bool) (w : WsTable) → TableInv w → TableInv (ws_record_issue dropped w)
unfolding ws_record_issue
issue-TableInv true w i = record { four = i.four; distinct = i.distinct; sound = i.sound }
issue-TableInv false w i = record { four = i.four; distinct = i.distinct; sound = i.sound }

finish_slot-TableInv :
    (now_us socket generation : ℕ) (err : EspErr) (w : WsTable)
    → TableInv w
    → TableInv (finish_slot now_us socket generation err w).0
unfolding finish_slot
finish_slot-TableInv now_us socket generation err w inv =
    let key = has_key socket generation in
    let worked =
      change-TableInv key (sent_ok now_us) w (λ s. inl refl) (sent_ok-IsSound now_us) inv in
    let failed =
      change-TableInv key (send_failed now_us) w (send_failed-Frees now_us)
        (send_failed-IsSound now_us) inv in
    elim (Bool-cases (is_ok err)) [
      | inl e ↦ rw e worked
      | inr e ↦ elim (Option-cases (find_slot key w.slots)) [
        | inl q ↦ rw e (rw q failed)
        | inr (s, q) ↦ rw e (rw q failed)
      ]
    ]

set-absent :
    (d i : ℕ) (s t : WsSlot) (ss : List WsSlot)
    → get_elem? ss i ≡ some s
    → t.fd ≡ s.fd
    → find_slot (has_fd d) ss ≡ none
    → find_slot (has_fd d) (set ss i t) ≡ none
unfolding find_slot
set-absent d i s t [] g e n = refl
set-absent d zero s t (u ∷ ss) g e n = ground arith
set-absent d (suc i) s t (u ∷ ss) g e n = ground (arith, set-absent d i s t ss g e)

set-DistinctFds :
    (i : ℕ) (s t : WsSlot) (ss : List WsSlot)
    → get_elem? ss i ≡ some s
    → t.fd ≡ s.fd
    → DistinctFds ss
    → DistinctFds (set ss i t)
set-DistinctFds i s t [] g e d = tt
set-DistinctFds zero s t (u ∷ ss) g e d =
    let q : t.fd ≡ u.fd = ground arith in
    (λ nz. ap (λ n. find_slot (has_fd n) ss) q ∙ d.0 (λ z. nz (q ∙ z)), d.1)
set-DistinctFds (suc i) s t (u ∷ ss) g e d =
    (λ nz. set-absent u.fd i s t ss g e (d.0 nz), set-DistinctFds i s t ss g e d.1)

set-IsSound :
    (i : ℕ) (s t : WsSlot) (ss : List WsSlot)
    → get_elem? ss i ≡ some s
    → (IsSound s → IsSound t)
    → All IsSound ss
    → All IsSound (set ss i t)
set-IsSound i s t [] g h a = tt
set-IsSound zero s t (u ∷ ss) g h a = (h (ground arith), a.1)
set-IsSound (suc i) s t (u ∷ ss) g h a = (a.0, set-IsSound i s t ss g h a.1)

-- A client is marked before it is sent to.
marked-TableInv :
    (i : ℕ) (s : WsSlot) (w : WsTable)
    → get_elem? w.slots i ≡ some s
    → s.fd ≢ 0
    → TableInv w
    → TableInv (record w { slots = set w.slots i (record s { send_inflight = true }) })
marked-TableInv i s w g nz inv =
    let t : WsSlot = record s { send_inflight = true } in
    record {
      four = length-set w.slots i t ∙ inv.four;
      distinct = set-DistinctFds i s t w.slots g refl inv.distinct;
      sound = set-IsSound i s t w.slots g (λ p. (p.0, λ z. absurd (nz z))) inv.sound;
    }

mark_seen-TableInv :
    (now_us i : ℕ) (o : Option WsSlot) (w : WsTable)
    → get_elem? w.slots i ≡ o
    → TableInv w
    → TableInv (mark_seen now_us i o w).0
unfolding mark_seen
mark_seen-TableInv now_us i none w e inv = inv
mark_seen-TableInv now_us i (some s) w e inv = elim (Bool-cases (ltb 0 s.fd)) [
  | inr z ↦ rw z inv
  | inl z ↦
      let nz : s.fd ≢ 0 = λ q. absurd (ground arith) in
      let done = marked-TableInv i s w e nz inv in
      elim (Bool-cases (is_busy now_us s)) [ inl b ↦ rw z (rw b inv) | inr b ↦ rw z (rw b done) ]
]

pub run_ws_act-TableInv : (a : WsAct) (w : WsTable) → TableInv w → TableInv (run_ws_act a w)
unfolding run_ws_act publish_stats mark_slot
run_ws_act-TableInv (track taken now_us fd) w i = track_slot-TableInv taken now_us fd w i
run_ws_act-TableInv (untrack taken fd) w i = untrack_slot-TableInv taken fd w i
run_ws_act-TableInv (clear taken fd g) w i = free_slot-TableInv taken fd g w i
run_ws_act-TableInv (complete now_us fd g err) w i = finish_slot-TableInv now_us fd g err w i
run_ws_act-TableInv (issue dropped) w i = issue-TableInv dropped w i
run_ws_act-TableInv (publish served missed n) w i = record {
  four = i.four;
  distinct = i.distinct;
  sound = i.sound;
}
run_ws_act-TableInv (mark now_us j) w i = mark_seen-TableInv now_us j (get_elem? w.slots j) w refl i
