-- ===== src/WebServer/Broadcast.antt =====
-- components/web_server/src/web_server.c: the broadcast of a message, and what the other tasks do with
-- the table of clients.
use esp32_s3_hot_tub_base.Base.{
  ℕ, suc, Bool, true, false, not, ◌&&◌, ◌||◌, List, [], ◌∷◌, Option, none, some, if◌then◌else◌,
}
use esp32_s3_hot_tub_base.Esp.{EspErr, ok, fail, no_mem, invalid_state, is_ok}
use esp32_s3_hot_tub_base.WebServer.Clients.{WsSlot, WsTable, ws_record_issue, is_busy, mark_slot}
use esp32_s3_hot_tub_base.WebServer.Acts.{
  WsAct, run_ws_acts, PublishRun, FinishRun, web_stats_publish, track_client, untrack_client,
  clear_client_slot, ws_finish_send,
}

-- What the calls for one slot return: the time, whether the session is a WebSocket, whether there is
-- memory for the copy of the message, what `httpd_ws_send_data_async` returns; the time at a
-- failure, whether the lock for the clearing is had; and what other tasks do before the critical
-- section, after it, within `ws_finish_send`, and before and within `clear_client_slot`.
pub record SlotRun : Type 0 where
  pub now_us : ℕ
  pub is_websocket : Bool
  pub has_memory : Bool
  pub sent : EspErr
  pub later_us : ℕ
  pub taken : Bool
  pub before : List WsAct
  pub after : List WsAct
  pub finish : FinishRun
  pub clear_gap : List WsAct
  pub clearing : PublishRun

-- The calls for a client that was marked, and whether they failed.
unfoldable pub send_to : SlotRun → ℕ → ℕ → WsTable → Bool × WsTable
unfolding ws_finish_send clear_client_slot run_ws_acts
send_to r fd generation w =
    let finished : EspErr → WsTable =
      λ err. ws_finish_send r.finish r.later_us fd generation err w in
    if not r.is_websocket
    then (
      true,
      clear_client_slot r.clearing r.taken fd generation
          (run_ws_acts r.clear_gap (finished invalid_state)),
    )
    else (if not r.has_memory
        then (true, finished no_mem)
        else (if is_ok r.sent then (false, w) else (true, finished r.sent)))

-- One round of the loop of `web_server_broadcast_json` from the end of its critical section on, for the
-- slot that was seen.
unfoldable pub visit_slot : SlotRun → Option WsSlot → WsTable → Bool × WsTable
unfolding is_busy send_to ws_record_issue run_ws_acts
visit_slot r none w = (false, w)
visit_slot r (some s) w0 =
    let w = run_ws_acts r.after w0 in
    let sent = send_to r s.fd s.generation w in
    if is_busy r.now_us s then (true, ws_record_issue true w) else sent

unfoldable pub broadcast_slot : SlotRun → ℕ → WsTable → Bool × WsTable
unfolding visit_slot run_ws_acts mark_slot
broadcast_slot r i w0 =
    let (w, seen) = mark_slot r.now_us i (run_ws_acts r.before w0) in visit_slot r seen w

-- The loop, from an index on, with one run for each slot.
unfoldable pub broadcast_from : List SlotRun → ℕ → WsTable → Bool × WsTable
unfolding broadcast_slot
broadcast_from [] i w = (false, w)
broadcast_from (r ∷ rs) i w =
    let (failed, w') = broadcast_slot r i w in
    let (failed', w'') = broadcast_from rs (suc i) w' in (failed || failed', w'')

-- `web_server_broadcast_json`, of a message that is not NULL and the runs for the four slots.
unfoldable pub broadcast_json : SlotRun → SlotRun → SlotRun → SlotRun → WsTable → EspErr × WsTable
unfolding broadcast_from
broadcast_json r0 r1 r2 r3 w =
    let (failed, w') = broadcast_from (r0 ∷ r1 ∷ r2 ∷ r3 ∷ []) 0 w in
    if not (w.has_server && w.has_mutex)
    then (invalid_state, w)
    else (if failed then fail else ok, w')

-- The calls of the component's operations, in the order of their ends. `ws_async_send_complete` of a
-- context that is not NULL is `ws_finish_send` of its generation.
pub data WsCall : Type 0 where
  tracks : PublishRun → Bool → ℕ → ℕ → WsCall
  untracks : PublishRun → Bool → ℕ → WsCall
  completes : FinishRun → ℕ → ℕ → ℕ → EspErr → WsCall
  serves : PublishRun → Bool → Bool → WsCall
  broadcasts : SlotRun → SlotRun → SlotRun → SlotRun → WsCall

unfoldable pub run_ws_call : WsCall → WsTable → WsTable
unfolding track_client untrack_client ws_finish_send web_stats_publish broadcast_json
run_ws_call (tracks p taken now_us fd) w = track_client p taken now_us fd w
run_ws_call (untracks p taken fd) w = untrack_client p taken fd w
run_ws_call (completes f now_us fd generation err) w = ws_finish_send f now_us fd generation err w
run_ws_call (serves p served missed) w = web_stats_publish p served missed w
run_ws_call (broadcasts r0 r1 r2 r3) w = (broadcast_json r0 r1 r2 r3 w).1

unfoldable pub run_ws_calls : List WsCall → WsTable → WsTable
unfolding run_ws_call
run_ws_calls [] w = w
run_ws_calls (c ∷ l) w = run_ws_calls l (run_ws_call c w)

-- The table of a server that has just started.
abbrev pub fresh_table : WsTable
fresh_table =
    let s : WsSlot = record {
      fd = 0;
      fail_count = 0;
      send_inflight = false;
      retry_after_us = 0;
      last_ok_us = 0;
      generation = 0;
    } in
    record {
      has_server = true;
      has_mutex = true;
      slots = s ∷ s ∷ s ∷ s ∷ [];
      next_generation = 0;
      dropped_count = 0;
      failed_count = 0;
      stats = record {
        is_running = true;
        active_connections = 0;
        total_requests_served = 0;
        file_not_found_404s = 0;
      };
    }
