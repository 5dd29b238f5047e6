-- ===== src/Ble/Tests.antt =====
-- Messages and commands of a BLE client on small runs.
use esp32_s3_hot_tub_base.Base.{
  ℕ, ◌≡◌, refl, true, false, List, [], ◌∷◌, none, some, map, length, replicate, arith,
}
use esp32_s3_hot_tub_base.Esp.{ok, fail}
use esp32_s3_hot_tub_base.Ble.Text.{ota_update_text}
use esp32_s3_hot_tub_base.Ble.Frames.{SendRun, send_chunked, max_payload_of}
use esp32_s3_hot_tub_base.Ble.Reassemble.{Carries, send_chunked-Carries}
use esp32_s3_hot_tub_base.Ble.Commands.{Ble, Security, BleRun, accepted, ota_result}
use esp32_s3_hot_tub_base.Ble.Rx.{write_chr, rx_access_cb}
use esp32_s3_hot_tub_base.Ble.Secure.{Harmless, rx_access_cb-Harmless}
use esp32_s3_hot_tub_base.Wifi.Tests.{unstarted}

abbrev all_taken : SendRun
all_taken = record {
  first = λ bytes. ok;
  frame_memory = λ i. true;
  chunk = λ i bytes. ok;
  last = λ bytes. ok;
}

abbrev hundred : List ℕ
hundred = replicate 100 7

send_chunked-Carries_example :
    let e = send_chunked all_taken 50 3 hundred in Carries (max_payload_of 50) hundred (e.0, e.1)
send_chunked-Carries_example =
    send_chunked-Carries all_taken 50 3 hundred
      (record {
        first_ok = λ bytes. refl;
        memory_ok = λ i. refl;
        chunk_ok = λ i bytes. refl;
        last_ok = λ bytes. refl;
      })
      (omega arith) (omega arith) (omega arith) (omega arith)

-- On the smallest MTU a long message is begun and then given up.
gives_up_on_small_mtu :
    let e = send_chunked all_taken 23 3 hundred in (e.0 ≡ fail) × (length e.1 ≡ 1)
unfolding send_chunked
gives_up_on_small_mtu = (refl, refl)

-- With 32 bytes set aside, the last of the seven chunks carry nothing.
last_chunks_are_empty :
    map (λ f. length f.content) (send_chunked all_taken 50 3 hundred).1
    ≡ 0 ∷ 35 ∷ 35 ∷ 30 ∷ 0 ∷ 0 ∷ 0 ∷ 0 ∷ 0 ∷ []
unfolding send_chunked
last_chunks_are_empty = refl

abbrev works : BleRun
works = record {
  request_memory = true;
  text_memory = true;
  debug_memory = true;
  update_in_progress = false;
  task = true;
  room = true;
}

abbrev quiet : Ble
quiet = record { status_compact_mode = false; ota_request_pending = false }

abbrev paired : Security
paired = record { encrypted = true; authenticated = true; bonded = true }

rx_access_cb-Harmless_example : Harmless quiet unstarted (
    rx_access_cb works
      (λ text. none)
      (some (record paired { bonded = false }))
      (write_chr ota_update_text true)
      quiet
      unstarted)
rx_access_cb-Harmless_example =
    rx_access_cb-Harmless works (λ text. none) (some (record paired { bonded = false }))
      (write_chr ota_update_text true) quiet unstarted refl

-- The same text over a secure connection requests an update.
secure_update_starts :
    let h =
      rx_access_cb works
        (λ text. none)
        (some paired)
        (write_chr (32 ∷ ota_update_text) true)
        quiet
        unstarted in
    (h.ble.ota_request_pending ≡ true) × (h.notices ≡ ota_result 0 accepted ∷ [])
unfolding rx_access_cb esp32_s3_hot_tub_base.Ota.Requests.is_https
secure_update_starts = (refl, refl)
