-- ===== src/WebServer/Acts.antt =====
-- components/web_server/src/web_server.c: the operations on the table of clients as sequences of critical
-- sections, with the steps of other tasks between them.
use esp32_s3_hot_tub_base.Base.{
  ℕ, ◌+◌, Bool, false, List, [], ◌∷◌, none, some, ltb, get_elem?, if◌then◌else◌,
}
use esp32_s3_hot_tub_base.Esp.{EspErr, is_ok}
use esp32_s3_hot_tub_base.WebServer.Clients.{
  WsTable, publish_stats, track_slot, untrack_slot, free_slot, ws_record_issue, finish_slot,
  mark_slot,
}

-- A critical section of some task.
pub data WsAct : Type 0 where
  track : Bool → ℕ → ℕ → WsAct
  untrack : Bool → ℕ → WsAct
  clear : Bool → ℕ → ℕ → WsAct
  complete : ℕ → ℕ → ℕ → EspErr → WsAct
  issue : Bool → WsAct
  publish : Bool → Bool → ℕ → WsAct
  mark : ℕ → ℕ → WsAct

unfoldable pub run_ws_act : WsAct → WsTable → WsTable
unfolding track_slot untrack_slot free_slot finish_slot ws_record_issue publish_stats mark_slot
run_ws_act (track taken now_us fd) w = (track_slot taken now_us fd w).0
run_ws_act (untrack taken fd) w = (untrack_slot taken fd w).0
run_ws_act (clear taken fd generation) w = (free_slot taken fd generation w).0
run_ws_act (complete now_us fd generation err) w = (finish_slot now_us fd generation err w).0
run_ws_act (issue dropped) w = ws_record_issue dropped w
run_ws_act (publish served missed n) w = publish_stats served missed n w
run_ws_act (mark now_us i) w = (mark_slot now_us i w).0

unfoldable pub run_ws_acts : List WsAct → WsTable → WsTable
unfolding run_ws_act
run_ws_acts [] w = w
run_ws_acts (a ∷ acts) w = run_ws_acts acts (run_ws_act a w)

-- What other tasks do before each of the four unlocked reads of `web_stats_publish`, and before its
-- critical section.
pub record PublishRun : Type 0 where
  pub read0 : List WsAct
  pub read1 : List WsAct
  pub read2 : List WsAct
  pub read3 : List WsAct
  pub store : List WsAct

-- How much the slot at an index adds to the count.
abbrev pub counted : ℕ → WsTable → ℕ
counted i w = elim (get_elem? w.slots i) [ none ↦ 0 | some s ↦ if ltb 0 s.fd then 1 else 0 ]

-- `web_stats_publish`
unfoldable pub web_stats_publish : PublishRun → Bool → Bool → WsTable → WsTable
unfolding run_ws_acts publish_stats
web_stats_publish p request_served not_found w =
    let w0 = run_ws_acts p.read0 w in
    let w1 = run_ws_acts p.read1 w0 in
    let w2 = run_ws_acts p.read2 w1 in
    let w3 = run_ws_acts p.read3 w2 in
    publish_stats request_served not_found
      (counted 0 w0 + counted 1 w1 + counted 2 w2 + counted 3 w3) (run_ws_acts p.store w3)

-- The publishing that ends an operation, if it goes on to it.
unfoldable pub then_publish : PublishRun → WsTable × Bool → WsTable
unfolding web_stats_publish
then_publish p (w, goes_on) =
    let published = web_stats_publish p false false w in if goes_on then published else w

-- `track_client`
unfoldable pub track_client : PublishRun → Bool → ℕ → ℕ → WsTable → WsTable
unfolding track_slot then_publish
track_client p taken now_us fd w = then_publish p (track_slot taken now_us fd w)

-- `untrack_client`
unfoldable pub untrack_client : PublishRun → Bool → ℕ → WsTable → WsTable
unfolding untrack_slot then_publish
untrack_client p taken fd w = then_publish p (untrack_slot taken fd w)

-- `clear_client_slot`
unfoldable pub clear_client_slot : PublishRun → Bool → ℕ → ℕ → WsTable → WsTable
unfolding free_slot then_publish
clear_client_slot p taken fd generation w = then_publish p (free_slot taken fd generation w)

-- What other tasks do in `ws_finish_send` between its critical section and the counting of a failure,
-- and in its publishing.
pub record FinishRun : Type 0 where
  pub issue_gap : List WsAct
  pub publishing : PublishRun

-- `ws_finish_send`; the closing of the session of a stalled client is left to the HTTP server.
unfoldable pub ws_finish_send : FinishRun → ℕ → ℕ → ℕ → EspErr → WsTable → WsTable
unfolding finish_slot run_ws_acts ws_record_issue then_publish
ws_finish_send f now_us socket generation err w =
    let (w1, close_client) = finish_slot now_us socket generation err w in
    let w2 = if is_ok err then w1 else ws_record_issue false (run_ws_acts f.issue_gap w1) in
    then_publish f.publishing (w2, close_client)
