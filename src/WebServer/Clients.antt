-- ===== src/WebServer/Clients.antt =====
-- components/web_server/src/web_server.c: the table of WebSocket clients. A file descriptor that is
-- not positive is 0, and a free slot has the descriptor 0. The time that a call reads is an
-- argument, and whether a timed lock is had.
use esp32_s3_hot_tub_base.Base.{
  ℕ, ◌+◌, ◌%◌, ◌^◌, Bool, true, false, not, ◌&&◌, ◌||◌, List, [], ◌∷◌, Option, none, some, set,
  get_elem?, leb, ltb, ◌==◌, if◌then◌else◌,
}
use esp32_s3_hot_tub_base.Esp.{EspErr, is_ok}

-- One index of the arrays `s_ws_clients` to `s_ws_generation`.
pub record WsSlot : Type 0 where
  pub fd : ℕ
  pub fail_count : ℕ
  pub send_inflight : Bool
  pub retry_after_us : ℕ
  pub last_ok_us : ℕ
  pub generation : ℕ

-- `webserver_status_t`, of the counters that are used.
pub record WebStats : Type 0 where
  pub is_running : Bool
  pub active_connections : ℕ
  pub total_requests_served : ℕ
  pub file_not_found_404s : ℕ

-- The statics of the table: whether there is a server and a mutex, the four slots and the counters.
pub record WsTable : Type 0 where
  pub has_server : Bool
  pub has_mutex : Bool
  pub slots : List WsSlot
  pub next_generation : ℕ
  pub dropped_count : ℕ
  pub failed_count : ℕ
  pub stats : WebStats

-- The critical section of `web_stats_publish`, with the number of clients that was counted before it.
unfoldable pub publish_stats : Bool → Bool → ℕ → WsTable → WsTable
publish_stats request_served not_found ws_clients w = record w {
  stats = record {
    is_running = w.has_server;
    active_connections = ws_clients;
    total_requests_served =
        if request_served
        then (w.stats.total_requests_served + 1) % 2 ^ 32
        else w.stats.total_requests_served;
    file_not_found_404s =
        if not_found
        then (w.stats.file_not_found_404s + 1) % 2 ^ 32
        else w.stats.file_not_found_404s;
  };
}

-- The first slot that a test holds of, and the slots with that one changed.
unfoldable pub find_slot : (WsSlot → Bool) → List WsSlot → Option WsSlot
find_slot test [] = none
find_slot test (s ∷ ss) = let rest = find_slot test ss in if test s then some s else rest

unfoldable pub change_slot : (WsSlot → Bool) → (WsSlot → WsSlot) → List WsSlot → List WsSlot
change_slot test f [] = []
change_slot test f (s ∷ ss) =
    let rest = change_slot test f ss in if test s then f s ∷ ss else s ∷ rest

abbrev pub has_fd : ℕ → WsSlot → Bool
has_fd fd s = s.fd == fd

abbrev pub has_key : ℕ → ℕ → WsSlot → Bool
has_key fd generation s = s.fd == fd && s.generation == generation

-- A slot for a new client, and the slot of one that is gone.
abbrev pub filled : ℕ → ℕ → ℕ → WsSlot → WsSlot
filled fd now_us generation s = record {
  fd = fd;
  fail_count = 0;
  send_inflight = false;
  retry_after_us = 0;
  last_ok_us = now_us;
  generation = generation;
}

abbrev pub emptied : WsSlot → WsSlot
emptied s = record s {
  fd = 0;
  fail_count = 0;
  send_inflight = false;
  retry_after_us = 0;
  last_ok_us = 0;
}

-- `track_client` up to the release of the mutex, and whether it goes on to publish.
unfoldable pub track_slot : Bool → ℕ → ℕ → WsTable → WsTable × Bool
unfolding find_slot change_slot
track_slot taken now_us fd w =
    let next = (w.next_generation + 1) % 2 ^ 32 in
    let tracked = record w {
      slots = change_slot (has_fd 0) (filled fd now_us next) w.slots;
      next_generation = next;
    } in
    if fd == 0 || not w.has_mutex || not taken
    then (w, false)
    else elim (find_slot (has_fd fd) w.slots) [
      | some s ↦ (w, false)
      | none ↦ elim (find_slot (has_fd 0) w.slots) [ none ↦ (w, false) | some s ↦ (tracked, true) ]
    ]

-- `untrack_client` up to the release of the mutex.
unfoldable pub untrack_slot : Bool → ℕ → WsTable → WsTable × Bool
unfolding find_slot change_slot
untrack_slot taken fd w =
    if fd == 0 || not w.has_mutex || not taken
    then (w, false)
    else elim (find_slot (has_fd fd) w.slots) [
      | none ↦ (w, false)
      | some s ↦ (record w { slots = change_slot (has_fd fd) emptied w.slots }, true)
    ]

-- `clear_client_slot` up to the release of the mutex.
unfoldable pub free_slot : Bool → ℕ → ℕ → WsTable → WsTable × Bool
unfolding change_slot
free_slot taken fd generation w =
    if fd == 0 || not w.has_mutex || not taken
    then (w, false)
    else (record w { slots = change_slot (has_key fd generation) emptied w.slots }, true)

-- `ws_record_issue`, but for what it logs.
unfoldable pub ws_record_issue : Bool → WsTable → WsTable
ws_record_issue dropped w =
    if dropped
    then record w { dropped_count = (w.dropped_count + 1) % 2 ^ 32 }
    else record w { failed_count = (w.failed_count + 1) % 2 ^ 32 }

-- A send that worked, and one that failed: the slot with the failure counted, and whether the
-- client is to be closed.
abbrev pub sent_ok : ℕ → WsSlot → WsSlot
sent_ok now_us s = record s {
  send_inflight = false;
  fail_count = 0;
  retry_after_us = 0;
  last_ok_us = now_us;
}

abbrev pub counted_failure : ℕ → WsSlot → WsSlot
counted_failure now_us s = record s {
  send_inflight = false;
  fail_count = if ltb s.fail_count 255 then s.fail_count + 1 else s.fail_count;
  retry_after_us = now_us + 1500000;
}

unfoldable pub is_stalled : ℕ → WsSlot → Bool
is_stalled now_us s =
    leb 30 s.fail_count || (ltb 0 s.last_ok_us && ltb (s.last_ok_us + 30000000) now_us)

unfoldable pub send_failed : ℕ → WsSlot → WsSlot
unfolding is_stalled
send_failed now_us s =
    let c = counted_failure now_us s in if is_stalled now_us c then record c { fd = 0 } else c

-- `ws_finish_send` up to the release of the mutex, and whether it goes on to close the client.
unfoldable pub finish_slot : ℕ → ℕ → ℕ → EspErr → WsTable → WsTable × Bool
unfolding find_slot change_slot send_failed is_stalled
finish_slot now_us socket generation err w =
    let key = has_key socket generation in
    let failed = record w { slots = change_slot key (send_failed now_us) w.slots } in
    if is_ok err
    then (record w { slots = change_slot key (sent_ok now_us) w.slots }, false)
    else elim (find_slot key w.slots) [
      | none ↦ (failed, false)
      | some s ↦ (failed, is_stalled now_us (counted_failure now_us s))
    ]

-- Whether a client is left out of a broadcast: a send of it is under way, or its retry time has not
-- come.
unfoldable pub is_busy : ℕ → WsSlot → Bool
is_busy now_us s = s.send_inflight || ltb now_us s.retry_after_us

-- The critical section of a broadcast for the slot at an index: the slot that it saw, if there is a
-- client, is marked unless it is busy.
unfoldable pub mark_seen : ℕ → ℕ → Option WsSlot → WsTable → WsTable × Option WsSlot
unfolding is_busy
mark_seen now_us i none w = (w, none)
mark_seen now_us i (some s) w =
    let marked = record w { slots = set w.slots i (record s { send_inflight = true }) } in
    if not (ltb 0 s.fd)
    then (w, none)
    else (if is_busy now_us s then (w, some s) else (marked, some s))

unfoldable pub mark_slot : ℕ → ℕ → WsTable → WsTable × Option WsSlot
unfolding mark_seen
mark_slot now_us i w = mark_seen now_us i (get_elem? w.slots i) w
