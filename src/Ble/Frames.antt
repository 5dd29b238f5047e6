-- ===== src/Ble/Frames.antt =====
-- components/ble_service/src/ble_service.c: a long message as a sequence of notifications.
use esp32_s3_hot_tub_base.Base.{
  ℕ, zero, suc, ◌+◌, ◌-◌, ◌/◌, ◌%◌, ◌^◌, Bool, not, ◌||◌, List, [], ◌∷◌, ◌++◌, length, take, drop,
  leb, ltb, ◌==◌, if◌then◌else◌,
}
use esp32_s3_hot_tub_base.Esp.{EspErr, ok, fail, no_mem, invalid_arg, is_ok}
use esp32_s3_hot_tub_base.Json.Decimal.{print_u32}

-- A notification: its header, and the bytes of the message that it carries.
pub record Frame : Type 0 where
  pub header : List ℕ
  pub content : List ℕ

abbrev pub frame_bytes : Frame → List ℕ
frame_bytes f = f.header ++ f.content

-- The largest notification of a connection with an MTU.
unfoldable pub max_payload_of : ℕ → ℕ
max_payload_of mtu = let m = if ltb 3 mtu then mtu - 3 else 20 in if ltb m 20 then 20 else m

-- "BEGIN:%u:%u:%u", "CHUNK:%u:%u/%u:" and "END:%u"
unfoldable pub begin_header : ℕ → ℕ → ℕ → List ℕ
unfolding print_u32
begin_header id len max =
    (b'B' ∷ b'E' ∷ b'G' ∷ b'I' ∷ b'N' ∷ b':' ∷ [])
    ++ (print_u32 id ++ ((b':' ∷ []) ++ (print_u32 len ++ ((b':' ∷ []) ++ print_u32 max))))

unfoldable pub chunk_header : ℕ → ℕ → ℕ → List ℕ
unfolding print_u32
chunk_header id index total =
    (b'C' ∷ b'H' ∷ b'U' ∷ b'N' ∷ b'K' ∷ b':' ∷ [])
    ++ (print_u32 id
        ++ ((b':' ∷ []) ++ (print_u32 index ++ ((b'/' ∷ []) ++ (print_u32 total ++ (b':' ∷ []))))))

unfoldable pub end_header : ℕ → List ℕ
unfolding print_u32
end_header id = (b'E' ∷ b'N' ∷ b'D' ∷ b':' ∷ []) ++ print_u32 id

-- `ble_service_notify_bytes`, by whether there is a connection and memory, and whether the
-- notification is taken.
unfoldable pub notify_bytes : Bool → Bool → Bool → List ℕ → EspErr
notify_bytes connected has_memory taken payload =
    if length payload == 0 || not connected
    then invalid_arg
    else (if has_memory then (if taken then ok else fail) else no_mem)

-- What the sending of a message meets: the connection, the memory and the taking of the first
-- notification, of each chunk, with the memory for its frame, and of the last one.
pub record SendRun : Type 0 where
  pub first : List ℕ → EspErr
  pub frame_memory : ℕ → Bool
  pub chunk : ℕ → List ℕ → EspErr
  pub last : List ℕ → EspErr

-- `reserved_header`
abbrev pub reserved_header : ℕ
reserved_header = 32

-- The loop of `ble_service_send_chunked`: chunks that are left, the index of the next one, and what is
-- left of the message. The length of a header is one of a `size_t` of 32 bits.
unfoldable pub send_frames : SendRun → ℕ → ℕ → ℕ → ℕ → ℕ → List ℕ → EspErr × List Frame
unfolding chunk_header
send_frames r id total max zero index rest = (ok, [])
send_frames r id total max (suc left) index rest =
    let header = chunk_header id (index + 1) total in
    let available = (max + 2 ^ 32 - length header) % 2 ^ 32 in
    let f : Frame = record { header = header; content = take available rest } in
    let err = r.chunk index (frame_bytes f) in
    let (err', frames) = send_frames r id total max left (index + 1) (drop available rest) in
    if not (r.frame_memory index)
    then (no_mem, [])
    else (if is_ok err then (err', f ∷ frames) else (err, []))

-- How many chunks a message has, for the largest notification.
unfoldable pub total_chunks : ℕ → ℕ → ℕ
total_chunks len max =
    let chunk_data_size = max - reserved_header in (len + chunk_data_size - 1) / chunk_data_size

-- The part of `ble_service_send_chunked` for a message that needs more than one notification.
unfoldable pub send_long : SendRun → ℕ → ℕ → List ℕ → EspErr × List Frame
unfolding begin_header send_frames total_chunks end_header
send_long r max id payload =
    let begin : Frame = record { header = begin_header id (length payload) max; content = [] } in
    let end : Frame = record { header = end_header id; content = [] } in
    let total = total_chunks (length payload) max in
    let (err, frames) = send_frames r id total max total 0 payload in
    let begun = r.first (frame_bytes begin) in
    let ended = r.last (frame_bytes end) in
    if not (is_ok begun)
    then (begun, [])
    else (if leb max reserved_header
        then (fail, begin ∷ [])
        else (if not (is_ok err)
            then (err, begin ∷ frames)
            else (if is_ok ended
                then (ok, begin ∷ (frames ++ (end ∷ [])))
                else (ended, begin ∷ frames))))

-- The part for a message that fits one.
unfoldable pub send_short : SendRun → List ℕ → EspErr × List Frame
send_short r payload =
    let whole : Frame = record { header = []; content = payload } in
    let err = r.first payload in if is_ok err then (ok, whole ∷ []) else (err, [])

-- `ble_service_send_chunked`, with the frames that were taken and the next value of `s_tx_msg_id`.
unfoldable pub send_chunked : SendRun → ℕ → ℕ → List ℕ → EspErr × List Frame × ℕ
unfolding max_payload_of send_short send_long
send_chunked r mtu msg_id payload =
    let max = max_payload_of mtu in
    let id = (msg_id + 1) % 2 ^ 32 in
    let short = send_short r payload in
    let long = send_long r max id payload in
    if leb (length payload) max then (short.0, short.1, msg_id) else (long.0, long.1, id)
