-- ===== src/WebServer/Broadcasts.antt =====
-- Every sequence of operations keeps the invariant of the table of WebSocket clients.
use esp32_s3_hot_tub_base.Base.{refl, List, arith}
use esp32_s3_hot_tub_base.WebServer.Clients.{find_slot}
use esp32_s3_hot_tub_base.WebServer.Broadcast.{WsCall, run_ws_calls, fresh_table}
use esp32_s3_hot_tub_base.WebServer.Sound.{TableInv}
use esp32_s3_hot_tub_base.WebServer.Sends.{run_ws_act-TableInv}
use esp32_s3_hot_tub_base.WebServer.Closed.{IsClosed, calls_keep}

TableInv-IsClosed : IsClosed (λ n w. TableInv w)
TableInv-IsClosed = record { act = λ n a w i. run_ws_act-TableInv a w i; fewer = λ m n w le i. i }

fresh-TableInv : TableInv fresh_table
unfolding find_slot
fresh-TableInv = record { four = refl; distinct = ground arith; sound = ground arith }

-- After any sequence of the operations of connections, closings, completions, requests and
-- broadcasts, with any outcome of what they call, and with other tasks running any critical sections
-- between any two critical sections of an operation and between its unlocked reads: the table has
-- four slots, no client has two of them, every client has failed less than 30 times in a row, and no
-- send is under way in a free slot.
pub run_ws_calls-TableInv : (l : List WsCall) → TableInv (run_ws_calls l fresh_table)
run_ws_calls-TableInv l =
    calls_keep (λ n w. TableInv w) TableInv-IsClosed 0 l fresh_table fresh-TableInv
