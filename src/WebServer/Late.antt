-- ===== src/WebServer/Late.antt =====
-- A completion of a send to a client that is gone changes no slot, even if the descriptor is in use
-- again: the generation tells the two clients apart.
use esp32_s3_hot_tub_base.Base.{
  ℕ, ◌+◌, ◌^◌, ◌≡◌, ◌≢◌, ◌≤◌, ◌<◌, refl, ◌∙◌, inl, inr, ap, sym, true, false, not, ◌||◌, List, [],
  ◌∷◌, none, ◌==◌, if◌then◌else◌, Bool-cases, Option-cases, arith,
}
use esp32_s3_hot_tub_base.Esp.{EspErr, is_ok}
use esp32_s3_hot_tub_base.WebServer.Clients.{
  WsSlot, WsTable, find_slot, change_slot, has_fd, has_key, emptied, sent_ok, send_failed,
  untrack_slot, finish_slot, ws_record_issue,
}
use esp32_s3_hot_tub_base.WebServer.Acts.{
  run_ws_acts, PublishRun, then_publish, untrack_client, FinishRun, ws_finish_send,
}
use esp32_s3_hot_tub_base.WebServer.Broadcast.{WsCall, run_ws_calls}
use esp32_s3_hot_tub_base.WebServer.Table.{DistinctFds}
use esp32_s3_hot_tub_base.WebServer.Sound.{TableInv}
use esp32_s3_hot_tub_base.WebServer.Closed.{publish_cost, calls_cost, then_keeps, calls_keep}
use esp32_s3_hot_tub_base.WebServer.Stale.{IsGone, change_slot-none, IsGone-IsClosed}

module _ (fd g : ℕ) (nz : fd ≢ 0) where
  no_key : (ss : List WsSlot) → find_slot (has_fd fd) ss ≡ none → find_slot (has_key fd g) ss ≡ none
  unfolding find_slot
  no_key [] e = refl
  no_key (s ∷ ss) e = ground (arith, no_key ss)

  -- A client that is taken out of a sound table is gone.
  untracked :
      (ss : List WsSlot)
      → DistinctFds ss
      → find_slot (has_key fd g) (change_slot (has_fd fd) emptied ss) ≡ none
  unfolding find_slot change_slot
  untracked [] d = refl
  untracked (s ∷ ss) d = elim (Bool-cases (has_fd fd s)) [
    | inl e ↦
        let q : s.fd ≡ fd = ground arith in
        let a : find_slot (has_fd fd) ss ≡ none =
          ap (λ m. find_slot (has_fd m) ss) (sym q) ∙ d.0 (λ z. nz (sym q ∙ z)) in
        rw e (ground (arith, no_key ss a))
    | inr e ↦ rw e (ground (arith, untracked ss d.1))
  ]

  untrack_slot-IsGone :
      (n : ℕ) (w : WsTable)
      → TableInv w
      → w.has_mutex ≡ true
      → g ≤ w.next_generation
      → w.next_generation + n < 2 ^ 32
      → IsGone fd g n (untrack_slot true fd w).0
  unfolding untrack_slot
  untrack_slot-IsGone n w inv m le lt =
      let gone : IsGone fd g n (record w { slots = change_slot (has_fd fd) emptied w.slots }) =
        (untracked w.slots inv.distinct, le, lt) in
      let skip : (fd == 0 || not w.has_mutex || not true) ≡ false = ground arith in
      elim (Option-cases (find_slot (has_fd fd) w.slots)) [
        | inl e ↦ rw skip (rw e (no_key w.slots e, le, lt))
        | inr (s, e) ↦ rw skip (rw e gone)
      ]

  untrack_client-IsGone :
      (n : ℕ) (p : PublishRun) (w : WsTable)
      → IsGone fd g (publish_cost p + n) (untrack_slot true fd w).0
      → IsGone fd g n (untrack_client p true fd w)
  unfolding untrack_client
  untrack_client-IsGone n p w q =
      then_keeps (IsGone fd g) (IsGone-IsClosed fd g nz) n p (untrack_slot true fd w) q

  finish_slot-late :
      (n now_us : ℕ) (err : EspErr) (w : WsTable)
      → IsGone fd g n w
      → finish_slot now_us fd g err w ≡ (w, false)
  unfolding finish_slot
  finish_slot-late n now_us err w q =
      let key = has_key fd g in
      let worked : change_slot key (sent_ok now_us) w.slots ≡ w.slots =
        change_slot-none key (sent_ok now_us) w.slots q.0 in
      let failed : change_slot key (send_failed now_us) w.slots ≡ w.slots =
        change_slot-none key (send_failed now_us) w.slots q.0 in
      elim (Bool-cases (is_ok err)) [
        | inl e ↦ rw e (ap (λ ss. (record w { slots = ss }, false)) worked)
        | inr e ↦ rw e (rw q.0 (ap (λ ss. (record w { slots = ss }, false)) failed))
      ]

  late :
      (n : ℕ) (f : FinishRun) (now_us : ℕ) (err : EspErr) (w : WsTable)
      → IsGone fd g n w
      → ws_finish_send f now_us fd g err w
        ≡ (if is_ok err then w else ws_record_issue false (run_ws_acts f.issue_gap w))
  unfolding ws_finish_send then_publish
  late n f now_us err w q = rw (finish_slot-late n now_us err w q) refl

  -- In a table that keeps the invariant, a client is untracked under the lock. After any calls that
  -- hand out, with the steps of other tasks between their critical sections, fewer generations than
  -- are left before the counter of 32 bits wraps around, a completion for the descriptor of this
  -- client and a generation that had been handed out changes no slot, closes no session and
  -- publishes nothing, even when the descriptor is in use again: it does nothing after a send that
  -- worked, and only counts the failure, after whatever other tasks did before that, after one that
  -- failed.
  pub stale_completion_ignored :
      (f : FinishRun) (now_us : ℕ) (err : EspErr) (p : PublishRun) (l : List WsCall) (w : WsTable)
      → TableInv w
      → w.has_mutex ≡ true
      → g ≤ w.next_generation
      → w.next_generation + (publish_cost p + calls_cost l) < 2 ^ 32
      → let x = run_ws_calls l (untrack_client p true fd w) in
        ws_finish_send f now_us fd g err x
        ≡ (if is_ok err then x else ws_record_issue false (run_ws_acts f.issue_gap x))
  stale_completion_ignored f now_us err p l w inv m le lt =
      let u : WsTable = untrack_client p true fd w in
      let gone =
        untrack_slot-IsGone (publish_cost p + (calls_cost l + 0)) w inv m le (omega arith) in
      late 0 f now_us err (run_ws_calls l u) (
        calls_keep (IsGone fd g) (IsGone-IsClosed fd g nz) 0 l u
          (untrack_client-IsGone (calls_cost l + 0) p w gone))
