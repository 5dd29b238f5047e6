-- ===== src/WebServer/Tests.antt =====
-- The table of WebSocket clients on small runs.
use esp32_s3_hot_tub_base.Base.{
  ℕ, ◌≡◌, refl, true, false, List, [], ◌∷◌, none, some, map, length, arith,
}
use esp32_s3_hot_tub_base.Esp.{ok, fail, no_mem}
use esp32_s3_hot_tub_base.WebServer.Acts.{
  PublishRun, FinishRun, publish, untrack, track_client, untrack_client, ws_finish_send,
}
use esp32_s3_hot_tub_base.WebServer.Broadcast.{
  SlotRun, WsCall, tracks, broadcasts, run_ws_calls, fresh_table, broadcast_json,
}
use esp32_s3_hot_tub_base.WebServer.Sound.{TableInv}
use esp32_s3_hot_tub_base.WebServer.Broadcasts.{run_ws_calls-TableInv}
use esp32_s3_hot_tub_base.WebServer.Files.{
  empty_cache, file_etag, storage_0, storage_1, mount_littlefs,
}
use esp32_s3_hot_tub_base.WebServer.Serve.{FileRun, send_file, text_frame, unencodable, ws_handler}
use esp32_s3_hot_tub_base.WebServer.Etags.{after_requests, etag_is_of_file}
use esp32_s3_hot_tub_base.WebServer.Late.{stale_completion_ignored}

-- No other task does anything.
abbrev quiet : PublishRun
quiet = record { read0 = []; read1 = []; read2 = []; read3 = []; store = [] }

abbrev alone : FinishRun
alone = record { issue_gap = []; publishing = quiet }

abbrev good_run : SlotRun
good_run = record {
  now_us = 5;
  is_websocket = true;
  has_memory = true;
  sent = ok;
  later_us = 6;
  taken = true;
  before = [];
  after = [];
  finish = alone;
  clear_gap = [];
  clearing = quiet;
}

-- A client comes and is sent a message.
abbrev one_client : List WsCall
one_client = tracks quiet true 1 7 ∷ broadcasts good_run good_run good_run good_run ∷ []

run_ws_calls-TableInv_example : TableInv (run_ws_calls one_client fresh_table)
run_ws_calls-TableInv_example = run_ws_calls-TableInv one_client

marks_the_client :
    map (λ s. s.send_inflight) (run_ws_calls one_client fresh_table).slots
    ≡ true ∷ false ∷ false ∷ false ∷ []
unfolding run_ws_calls
marks_the_client = refl

-- The second broadcast leaves the client out while its send is under way.
leaves_out_busy :
    (broadcast_json good_run good_run good_run good_run (run_ws_calls one_client fresh_table)).0
    ≡ fail
unfolding run_ws_calls
leaves_out_busy = refl

-- The descriptor 7 is closed and opened again while a send of generation 1 is under way.
stale_completion_ignored_example :
    ws_finish_send alone 20 7 1 ok (
      run_ws_calls
        (tracks quiet true 9 7 ∷ broadcasts good_run good_run good_run good_run ∷ [])
        (untrack_client quiet true 7 (run_ws_calls one_client fresh_table)))
    ≡ run_ws_calls
        (tracks quiet true 9 7 ∷ broadcasts good_run good_run good_run good_run ∷ [])
        (untrack_client quiet true 7 (run_ws_calls one_client fresh_table))
unfolding run_ws_calls
stale_completion_ignored_example =
    stale_completion_ignored 7 1 (λ e. absurd (omega arith)) alone 20 ok quiet
      (tracks quiet true 9 7 ∷ broadcasts good_run good_run good_run good_run ∷ [])
      (run_ws_calls one_client fresh_table) (run_ws_calls-TableInv one_client) refl (omega arith)
      (omega arith)

-- While a client that has come is counted, another task removes it and publishes that there is none;
-- the older count is published last and stays.
old_count_stays :
    let late : PublishRun = record {
      read0 = [];
      read1 = [];
      read2 = [];
      read3 = [];
      store = untrack true 7 ∷ publish false false 0 ∷ [];
    } in
    let x = track_client late true 1 7 fresh_table in
    ◌≡◌ {A = ℕ × List ℕ}
      (x.stats.active_connections, map (λ s. s.fd) x.slots)
      (1, 0 ∷ 0 ∷ 0 ∷ 0 ∷ [])
unfolding track_client
old_count_stays = refl

abbrev page : List ℕ
page = b'/' ∷ b'a' ∷ b'.' ∷ b'j' ∷ b's' ∷ []

etag_is_of_file_example :
    (file_etag (some 5) page 5 (after_requests length length ((page, true) ∷ []) empty_cache)).0
    ≡ some (5, 5)
etag_is_of_file_example =
    etag_is_of_file length length ((page, true) ∷ []) page
      ((λ e. absurd (ground arith), omega arith), tt) (λ e. absurd (ground arith), omega arith)

abbrev one_file : FileRun
one_file = record {
  gz_size = none;
  plain_size = some 2;
  read_crc = some 5;
  same_validator = false;
  opens = true;
  whole = none;
  sent = ok;
  chunks = (b'h' ∷ [], ok) ∷ (b'i' ∷ [], fail) ∷ [];
  last_sent = ok;
  publishing = quiet;
}

-- A chunk that is not sent ends the response.
stops_at_failure :
    (send_file one_file page empty_cache fresh_table).2.stats.total_requests_served ≡ 0
unfolding send_file
stops_at_failure = refl

-- A message whose answer cannot be encoded keeps its client.
keeps_client :
    ws_handler
      (record {
        is_get = false;
        sockfd = 7;
        taken = true;
        now_us = 3;
        header = ok;
        frame_type = text_frame;
        len = 4;
        has_memory = true;
        received = ok;
        reply = unencodable;
        tracking = quiet;
        untracking = quiet;
      })
      fresh_table
    ≡ (no_mem, track_client quiet true 3 7 fresh_table)
unfolding ws_handler
keeps_client = refl

falls_back :
    mount_littlefs false (λ l. elim l [
      | storage_0 ↦ record { registered = fail; has_index = true }
      | storage_1 ↦ record { registered = ok; has_index = true }
    ])
    ≡ (ok, some storage_1)
unfolding mount_littlefs
falls_back = refl
