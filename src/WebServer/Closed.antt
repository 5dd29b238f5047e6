-- ===== src/WebServer/Closed.antt =====
-- What the critical sections keep, the operations keep, whatever other tasks do between them.
use esp32_s3_hot_tub_base.Base.{
  ℕ, suc, ◌+◌, ◌≤◌, inl, inr, Bool, true, false, not, ◌&&◌, List, [], ◌∷◌, Option, none, some,
  if◌then◌else◌, Bool-cases, arith,
}
use esp32_s3_hot_tub_base.Esp.{EspErr, is_ok, invalid_state, no_mem}
use esp32_s3_hot_tub_base.WebServer.Clients.{
  WsSlot, WsTable, track_slot, untrack_slot, free_slot, finish_slot, mark_slot, ws_record_issue,
  is_busy,
}
use esp32_s3_hot_tub_base.WebServer.Acts.{
  WsAct, track, untrack, clear, complete, issue, publish, mark, run_ws_act, run_ws_acts, PublishRun,
  counted, web_stats_publish, then_publish, track_client, untrack_client, clear_client_slot,
  FinishRun, ws_finish_send,
}
use esp32_s3_hot_tub_base.WebServer.Broadcast.{
  SlotRun, send_to, visit_slot, broadcast_slot, broadcast_from, broadcast_json, WsCall, tracks,
  untracks, completes, serves, broadcasts, run_ws_call, run_ws_calls,
}

-- How many generations can be handed out, by the acts that track a client.
abbrev pub act_cost : WsAct → ℕ
act_cost (track taken now_us fd) = 1
act_cost _ = 0

abbrev pub acts_cost : List WsAct → ℕ
acts_cost [] = 0
acts_cost (a ∷ l) = act_cost a + acts_cost l

abbrev pub publish_cost : PublishRun → ℕ
publish_cost p =
    acts_cost p.read0
    + (acts_cost p.read1 + (acts_cost p.read2 + (acts_cost p.read3 + acts_cost p.store)))

abbrev pub finish_cost : FinishRun → ℕ
finish_cost f = acts_cost f.issue_gap + publish_cost f.publishing

abbrev pub send_cost : SlotRun → ℕ
send_cost r = finish_cost r.finish + (acts_cost r.clear_gap + publish_cost r.clearing)

abbrev pub slot_cost : SlotRun → ℕ
slot_cost r = acts_cost r.before + (acts_cost r.after + send_cost r)

abbrev pub slots_cost : List SlotRun → ℕ
slots_cost [] = 0
slots_cost (r ∷ rs) = slot_cost r + slots_cost rs

abbrev pub call_cost : WsCall → ℕ
call_cost (tracks p taken now_us fd) = 1 + publish_cost p
call_cost (untracks p taken fd) = publish_cost p
call_cost (completes f now_us fd generation err) = finish_cost f
call_cost (serves p served missed) = publish_cost p
call_cost (broadcasts r0 r1 r2 r3) = slots_cost (r0 ∷ r1 ∷ r2 ∷ r3 ∷ [])

abbrev pub calls_cost : List WsCall → ℕ
calls_cost [] = 0
calls_cost (c ∷ l) = call_cost c + calls_cost l

-- A property of the table, for a number of generations that may still be handed out, that every
-- critical section keeps.
pub record IsClosed (P : ℕ → WsTable → Type 0) : Type 0 where
  pub act : (n : ℕ) (a : WsAct) (w : WsTable) → P (act_cost a + n) w → P n (run_ws_act a w)
  pub fewer : (m n : ℕ) (w : WsTable) → m ≤ n → P n w → P m w

module _ (P : ℕ → WsTable → Type 0) (closed : IsClosed P) where
  pub acts_keep :
      (n : ℕ) (l : List WsAct) (w : WsTable) → P (acts_cost l + n) w → P n (run_ws_acts l w)
  unfolding run_ws_acts
  acts_keep n [] w p = closed.fewer n (0 + n) w (omega arith) p
  acts_keep n (a ∷ l) w p = acts_keep n l (run_ws_act a w) (
      closed.act (acts_cost l + n) a w (
        closed.fewer (act_cost a + (acts_cost l + n)) (act_cost a + acts_cost l + n) w (omega arith)
          p))

  -- An act that hands out no generation.
  quiet : (n : ℕ) (a : WsAct) (w : WsTable) → act_cost a + n ≤ n → P n w → P n (run_ws_act a w)
  quiet n a w le p = closed.act n a w (closed.fewer (act_cost a + n) n w le p)

  pub publish_keeps :
      (n : ℕ) (r : PublishRun) (served missed : Bool) (w : WsTable)
      → P (publish_cost r + n) w
      → P n (web_stats_publish r served missed w)
  unfolding web_stats_publish run_ws_act
  publish_keeps n r served missed w p =
      let n4 = acts_cost r.store + n in
      let n3 = acts_cost r.read3 + n4 in
      let n2 = acts_cost r.read2 + n3 in
      let n1 = acts_cost r.read1 + n2 in
      let w0 = run_ws_acts r.read0 w in
      let w1 = run_ws_acts r.read1 w0 in
      let w2 = run_ws_acts r.read2 w1 in
      let w3 = run_ws_acts r.read3 w2 in
      let p0 =
        acts_keep n1 r.read0 w
          (closed.fewer (acts_cost r.read0 + n1) (publish_cost r + n) w (omega arith) p) in
      let p3 = acts_keep n4 r.read3 w2 (acts_keep n3 r.read2 w1 (acts_keep n2 r.read1 w0 p0)) in
      quiet n (publish served missed (counted 0 w0 + counted 1 w1 + counted 2 w2 + counted 3 w3))
        (run_ws_acts r.store w3) (omega arith) (acts_keep n r.store w3 p3)

  pub then_keeps :
      (n : ℕ) (r : PublishRun) (e : WsTable × Bool)
      → P (publish_cost r + n) e.0
      → P n (then_publish r e)
  unfolding then_publish
  then_keeps n r (w, true) p = publish_keeps n r false false w p
  then_keeps n r (w, false) p = closed.fewer n (publish_cost r + n) w (omega arith) p

  track_keeps :
      (n : ℕ) (r : PublishRun) (taken : Bool) (now_us fd : ℕ) (w : WsTable)
      → P (1 + publish_cost r + n) w
      → P n (track_client r taken now_us fd w)
  unfolding track_client run_ws_act
  track_keeps n r taken now_us fd w p = then_keeps n r (track_slot taken now_us fd w) (
      closed.act (publish_cost r + n) (track taken now_us fd) w
        (closed.fewer (1 + (publish_cost r + n)) (1 + publish_cost r + n) w (omega arith) p))

  untrack_keeps :
      (n : ℕ) (r : PublishRun) (taken : Bool) (fd : ℕ) (w : WsTable)
      → P (publish_cost r + n) w
      → P n (untrack_client r taken fd w)
  unfolding untrack_client run_ws_act
  untrack_keeps n r taken fd w p =
      then_keeps n r (untrack_slot taken fd w)
        (quiet (publish_cost r + n) (untrack taken fd) w (omega arith) p)

  clear_keeps :
      (n : ℕ) (r : PublishRun) (taken : Bool) (fd g : ℕ) (w : WsTable)
      → P (publish_cost r + n) w
      → P n (clear_client_slot r taken fd g w)
  unfolding clear_client_slot run_ws_act
  clear_keeps n r taken fd g w p =
      then_keeps n r (free_slot taken fd g w)
        (quiet (publish_cost r + n) (clear taken fd g) w (omega arith) p)

  issued :
      (n : ℕ) (c : Bool) (gap : List WsAct) (w : WsTable)
      → P (acts_cost gap + n) w
      → P n (if c then w else ws_record_issue false (run_ws_acts gap w))
  unfolding run_ws_act
  issued n true gap w p = closed.fewer n (acts_cost gap + n) w (omega arith) p
  issued n false gap w p =
      quiet n (issue false) (run_ws_acts gap w) (omega arith) (acts_keep n gap w p)

  finish_keeps :
      (n : ℕ) (f : FinishRun) (now_us fd g : ℕ) (err : EspErr) (w : WsTable)
      → P (finish_cost f + n) w
      → P n (ws_finish_send f now_us fd g err w)
  unfolding ws_finish_send run_ws_act
  finish_keeps n f now_us fd g err w p =
      let k = publish_cost f.publishing + n in
      let e = finish_slot now_us fd g err w in
      let p1 =
        quiet (acts_cost f.issue_gap + k) (complete now_us fd g err) w (omega arith)
          (closed.fewer (acts_cost f.issue_gap + k) (finish_cost f + n) w (omega arith) p) in
      then_keeps n f.publishing
        (if is_ok err then e.0 else ws_record_issue false (run_ws_acts f.issue_gap e.0), e.1)
        (issued k (is_ok err) f.issue_gap e.0 p1)

  pair-if :
      (n : ℕ) (b : Bool) (x y : Bool × WsTable) → P n x.1 → P n y.1 → P n (if b then x else y).1
  pair-if n true x y p q = p
  pair-if n false x y p q = q

  send_to-keeps :
      (n : ℕ) (r : SlotRun) (fd g : ℕ) (w : WsTable)
      → P (send_cost r + n) w
      → P n (send_to r fd g w).1
  unfolding send_to
  send_to-keeps n r fd g w p =
      let k = acts_cost r.clear_gap + (publish_cost r.clearing + n) in
      let done : (e : EspErr) → P k (ws_finish_send r.finish r.later_us fd g e w) = λ e.
        finish_keeps k r.finish r.later_us fd g e w
          (closed.fewer (finish_cost r.finish + k) (send_cost r + n) w (omega arith) p) in
      let failed : (e : EspErr) → P n (ws_finish_send r.finish r.later_us fd g e w) = λ e.
        closed.fewer n k (ws_finish_send r.finish r.later_us fd g e w) (omega arith) (done e) in
      let v = ws_finish_send r.finish r.later_us fd g invalid_state w in
      let cleared =
        clear_keeps n r.clearing r.taken fd g (run_ws_acts r.clear_gap v)
          (acts_keep (publish_cost r.clearing + n) r.clear_gap v (done invalid_state)) in
      pair-if n (not r.is_websocket) _ _ cleared (
        pair-if n (not r.has_memory) _ _ (failed no_mem) (
          pair-if n (is_ok r.sent) (false, w) _ (closed.fewer n (send_cost r + n) w (omega arith) p)
            (failed r.sent)))

  visit-keeps :
      (n : ℕ) (r : SlotRun) (seen : Option WsSlot) (w : WsTable)
      → P (acts_cost r.after + send_cost r + n) w
      → P n (visit_slot r seen w).1
  unfolding visit_slot run_ws_act
  visit-keeps n r none w p = closed.fewer n (acts_cost r.after + send_cost r + n) w (omega arith) p
  visit-keeps n r (some s) w p =
      let k = send_cost r + n in
      let x = run_ws_acts r.after w in
      let q = acts_keep k r.after w (
        closed.fewer (acts_cost r.after + k) (acts_cost r.after + send_cost r + n) w (omega arith)
          p) in
      pair-if n (is_busy r.now_us s) (true, ws_record_issue true x) _
        (quiet n (issue true) x (omega arith) (closed.fewer n k x (omega arith) q))
        (send_to-keeps n r s.fd s.generation x q)

  slot-keeps :
      (n : ℕ) (r : SlotRun) (i : ℕ) (w : WsTable)
      → P (slot_cost r + n) w
      → P n (broadcast_slot r i w).1
  unfolding broadcast_slot run_ws_act
  slot-keeps n r i w p =
      let k = acts_cost r.after + send_cost r + n in
      let x = run_ws_acts r.before w in
      let q =
        acts_keep k r.before w
          (closed.fewer (acts_cost r.before + k) (slot_cost r + n) w (omega arith) p) in
      let e = mark_slot r.now_us i x in
      visit-keeps n r e.1 e.0 (quiet k (mark r.now_us i) x (omega arith) q)

  from-keeps :
      (n : ℕ) (rs : List SlotRun) (i : ℕ) (w : WsTable)
      → P (slots_cost rs + n) w
      → P n (broadcast_from rs i w).1
  unfolding broadcast_from
  from-keeps n [] i w p = closed.fewer n (0 + n) w (omega arith) p
  from-keeps n (r ∷ rs) i w p = from-keeps n rs (suc i) (broadcast_slot r i w).1 (
      slot-keeps (slots_cost rs + n) r i w (
        closed.fewer (slot_cost r + (slots_cost rs + n)) (slot_cost r + slots_cost rs + n) w
          (omega arith) p))

  broadcast-keeps :
      (n : ℕ) (r0 r1 r2 r3 : SlotRun) (w : WsTable)
      → P (slots_cost (r0 ∷ r1 ∷ r2 ∷ r3 ∷ []) + n) w
      → P n (broadcast_json r0 r1 r2 r3 w).1
  unfolding broadcast_json
  broadcast-keeps n r0 r1 r2 r3 w p =
      let rs : List SlotRun = r0 ∷ r1 ∷ r2 ∷ r3 ∷ [] in
      let done = from-keeps n rs 0 w p in
      elim (Bool-cases (w.has_server && w.has_mutex)) [
        | inl e ↦ rw e done
        | inr e ↦ rw e (closed.fewer n (slots_cost rs + n) w (omega arith) p)
      ]

  call_keeps : (n : ℕ) (c : WsCall) (w : WsTable) → P (call_cost c + n) w → P n (run_ws_call c w)
  unfolding run_ws_call
  call_keeps n (tracks r taken now_us fd) w p = track_keeps n r taken now_us fd w p
  call_keeps n (untracks r taken fd) w p = untrack_keeps n r taken fd w p
  call_keeps n (completes f now_us fd g err) w p = finish_keeps n f now_us fd g err w p
  call_keeps n (serves r served missed) w p = publish_keeps n r served missed w p
  call_keeps n (broadcasts r0 r1 r2 r3) w p = broadcast-keeps n r0 r1 r2 r3 w p

  pub calls_keep :
      (n : ℕ) (l : List WsCall) (w : WsTable) → P (calls_cost l + n) w → P n (run_ws_calls l w)
  unfolding run_ws_calls
  calls_keep n [] w p = closed.fewer n (0 + n) w (omega arith) p
  calls_keep n (c ∷ l) w p = calls_keep n l (run_ws_call c w) (
      call_keeps (calls_cost l + n) c w (
        closed.fewer (call_cost c + (calls_cost l + n)) (call_cost c + calls_cost l + n) w
          (omega arith) p))
