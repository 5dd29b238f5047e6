-- ===== src/WebServer/Serve.antt =====
-- components/web_server/src/web_server.c: the handlers of requests. What the file system, the HTTP
-- server and the JSON service return is an argument.
use esp32_s3_hot_tub_base.Base.{
  ℕ, ◌+◌, Bool, true, false, not, ◌&&◌, List, [], ◌∷◌, ◌++◌, Option, none, some, length, take, leb,
  ltb, ◌==◌, if◌then◌else◌,
}
use esp32_s3_hot_tub_base.Esp.{EspErr, ok, no_mem, is_ok}
use esp32_s3_hot_tub_base.WebServer.Clients.{WsTable}
use esp32_s3_hot_tub_base.WebServer.Acts.{
  PublishRun, web_stats_publish, track_client, untrack_client,
}
use esp32_s3_hot_tub_base.WebServer.Files.{ContentType, content_type_for_path, EtagCache, file_etag}

-- `WEB_SERVER_WHOLE_FILE_MAX`
abbrev pub whole_file_max : ℕ
whole_file_max = 32768

-- What `send_file` finds: the sizes of the compressed and of the plain regular file, the checksum of
-- the bytes that are stored if they can be read for it, whether the request has their validator,
-- whether the file opens, its bytes if there is memory for a whole and they are read, and what the
-- sending of a whole returns; otherwise the chunks with what sending each returns, and what
-- sending the empty last one returns; and what other tasks do during the publishing of the counters.
pub record FileRun : Type 0 where
  pub gz_size : Option ℕ
  pub plain_size : Option ℕ
  pub read_crc : Option ℕ
  pub same_validator : Bool
  pub opens : Bool
  pub whole : Option (List ℕ)
  pub sent : EspErr
  pub chunks : List (List ℕ × EspErr)
  pub last_sent : EspErr
  pub publishing : PublishRun

-- What goes out: the type, whether it is compressed, and the checksum and the size of the validator.
pub record Headers : Type 0 where
  pub content_type : ContentType
  pub gzipped : Bool
  pub etag : Option (ℕ × ℕ)

pub data Response : Type 0 where
  not_found : Response
  not_modified : Headers → Response
  body : Headers → List ℕ → EspErr → Response

-- The loop over the chunks, up to one that is not sent: the bytes that were, and the result.
unfoldable pub send_chunks : EspErr → List (List ℕ × EspErr) → List ℕ × EspErr
send_chunks last_sent [] = ([], last_sent)
send_chunks last_sent ((chunk, err) ∷ chunks) =
    let (bytes, result) = send_chunks last_sent chunks in
    if is_ok err then (chunk ++ bytes, result) else ([], err)

-- The stored file: its path, its size, and whether it is the compressed one.
unfoldable pub stored_file : FileRun → List ℕ → Option (List ℕ × ℕ × Bool)
stored_file r path =
    let plain : Option (List ℕ × ℕ × Bool) = elim r.plain_size [
      | none ↦ none
      | some n ↦ some (take 511 path, n, false)
    ] in
    if ltb (length path + 3) 512
    then elim r.gz_size [
      | none ↦ plain
      | some n ↦ some (path ++ (b'.' ∷ b'g' ∷ b'z' ∷ []), n, true)
    ]
    else plain

-- The end of `send_file`, from the opening of the file on.
unfoldable pub send_body : FileRun → Headers → ℕ → WsTable → Response × WsTable
unfolding send_chunks web_stats_publish
send_body r h size w =
    let (bytes, result) = send_chunks r.last_sent r.chunks in
    let chunked : Response × WsTable =
      (body h bytes result, web_stats_publish r.publishing (is_ok result) false w) in
    if not r.opens
    then (not_found, web_stats_publish r.publishing false true w)
    else (if ltb 0 size && leb size whole_file_max
        then elim r.whole [
          | none ↦ chunked
          | some bytes' ↦
              (body h bytes' r.sent, web_stats_publish r.publishing (is_ok r.sent) false w)
        ]
        else chunked)

-- `send_file`, of a path without its terminator.
unfoldable pub send_file : FileRun → List ℕ → EtagCache → WsTable → Response × EtagCache × WsTable
unfolding stored_file send_body file_etag content_type_for_path web_stats_publish
send_file r path c w = elim (stored_file r path) [
  | none ↦ (not_found, c, web_stats_publish r.publishing false true w)
  | some (stored_path, size, gzipped) ↦
      let (etag, c') = file_etag r.read_crc stored_path size c in
      let h : Headers = record {
        content_type = content_type_for_path path;
        gzipped = gzipped;
        etag = etag;
      } in
      let (response, w') = send_body r h size w in
      let sent : Response × EtagCache × WsTable = (response, c', w') in
      elim etag [
        | none ↦ sent
        | some validator ↦
            if r.same_validator
            then (not_modified h, c', web_stats_publish r.publishing true false w)
            else sent
      ]
]

-- `asset_handler`: the path of the file, or none if it is too long.
unfoldable pub asset_path : List ℕ → Option (List ℕ)
asset_path uri =
    let path =
      (b'/' ∷ b'l' ∷ b'i' ∷ b't' ∷ b't' ∷ b'l' ∷ b'e' ∷ b'f' ∷ b's' ∷ b'/' ∷ b'w' ∷ b'w' ∷ b'w'
        ∷ [])
      ++ uri in
    if leb 400 (length path) then none else some path

-- The types of a frame that `ws_handler` tells apart, and what becomes of a message.
pub data FrameType : Type 0 where
  close_frame text_frame other_frame : FrameType

pub data Reply : Type 0 where
  undecodable unencodable : Reply
  replied : EspErr → Reply

-- What `ws_handler` is called with, what its calls return, and what other tasks do during the
-- publishing of the count.
pub record WsRequest : Type 0 where
  pub is_get : Bool
  pub sockfd : ℕ
  pub taken : Bool
  pub now_us : ℕ
  pub header : EspErr
  pub frame_type : FrameType
  pub len : ℕ
  pub has_memory : Bool
  pub received : EspErr
  pub reply : Reply
  pub tracking : PublishRun
  pub untracking : PublishRun

-- What the handler returns for a message that was received.
unfoldable pub reply_code : Reply → EspErr
reply_code undecodable = ok
reply_code unencodable = no_mem
reply_code (replied err) = err

-- The part of `ws_handler` for a text frame.
unfoldable pub handle_text : WsRequest → WsTable → EspErr × WsTable
unfolding reply_code untrack_client
handle_text r w =
    if r.len == 0
    then (ok, w)
    else (if not r.has_memory
        then (no_mem, w)
        else (if is_ok r.received
            then (reply_code r.reply, w)
            else (r.received, untrack_client r.untracking r.taken r.sockfd w)))

-- `ws_handler`
unfoldable pub ws_handler : WsRequest → WsTable → EspErr × WsTable
unfolding handle_text track_client untrack_client
ws_handler r w0 =
    let w = track_client r.tracking r.taken r.now_us r.sockfd w0 in
    let dropped = untrack_client r.untracking r.taken r.sockfd w in
    let handled : EspErr × WsTable = elim r.frame_type [
      | close_frame ↦ (ok, dropped)
      | text_frame ↦ handle_text r w
      | other_frame ↦ (ok, w)
    ] in
    if r.is_get then (ok, w) else (if is_ok r.header then handled else (r.header, dropped))
