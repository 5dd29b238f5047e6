-- ===== src/Ota/Update.antt =====
-- components/ota_manager/src/ota_manager.c: the update of the firmware and of the web page, with its
-- reservation and the progress that it publishes.
use esp32_s3_hot_tub_base.Base.{
  ℕ, ◌+◌, ◌*◌, ◌/◌, Bool, true, false, List, [], ◌∷◌, ◌++◌, Option, none, some, ltb, ◌==◌,
  if◌then◌else◌,
}
use esp32_s3_hot_tub_base.Esp.{EspErr, ok, no_mem, invalid_arg, invalid_state, not_found, is_ok}
use esp32_s3_hot_tub_base.WebServer.Files.{Label}
use esp32_s3_hot_tub_base.Ota.Urls.{AppPartition, storage_label_for_next_app, storage_image_url}
use esp32_s3_hot_tub_base.Ota.Images.{ImageRun, Image, download_partition_image}

pub data OtaStatus : Type 0 where
  requested downloading download_complete failed preparing_storage flashing : OtaStatus
  pending_reboot up_to_date : OtaStatus

-- A message of `ota_publish_progress_status`; a number that is left out is none.
pub record Progress : Type 0 where
  pub status : OtaStatus
  pub percent : ℕ
  pub bytes_written : Option ℕ
  pub total_bytes : Option ℕ

-- `ota_progress_ctx_t`; a negative content length is none.
pub record ProgressCtx : Type 0 where
  pub total_received : ℕ
  pub content_length : Option ℕ
  pub last_progress : ℕ

-- `s_ota_update_in_progress`, whether the heartbeat is fast, and what was published.
pub record Ota : Type 0 where
  pub in_progress : Bool
  pub fast_heartbeat : Bool
  pub published : List Progress

unfoldable pub publish_progress : OtaStatus → ℕ → Option ℕ → Option ℕ → Ota → Ota
publish_progress status percent bytes_written total_bytes o = record o {
  published =
      o.published
      ++ (record {
        status = status;
        percent = percent;
        bytes_written = bytes_written;
        total_bytes = total_bytes;
      }
          ∷ []);
}

-- `ota_manager_reserve`, `ota_manager_release`
unfoldable pub reserve : Ota → Bool × Ota
reserve o = if o.in_progress then (false, o) else (true, record o { in_progress = true })

unfoldable pub release : Ota → Ota
release o = record o { fast_heartbeat = false; in_progress = false }

-- The events of the HTTP client that the firmware is downloaded with.
pub data HttpEvent : Type 0 where
  on_connected on_content_length : Option ℕ → HttpEvent
  on_data : ℕ → HttpEvent
  on_finish on_error : HttpEvent

-- The progress after a piece of data.
unfoldable pub next_progress : ProgressCtx → ℕ
next_progress ctx =
    let guessed = if ltb ctx.last_progress 95 then ctx.last_progress + 6 else ctx.last_progress in
    let p : ℕ = elim ctx.content_length [
      | none ↦ guessed
      | some n ↦ if ltb 0 n then ctx.total_received * 100 / n else guessed
    ] in
    if ltb 100 p then 100 else p

-- `ota_http_event_handler`
unfoldable pub ota_http_event_handler : HttpEvent → ProgressCtx × Ota → ProgressCtx × Ota
unfolding next_progress publish_progress
ota_http_event_handler (on_connected n) (ctx, o) = (
  record { total_received = 0; content_length = n; last_progress = 0 },
  publish_progress downloading 0 (some 0) n o,
)
ota_http_event_handler (on_content_length n) (ctx, o) = (record ctx { content_length = n }, o)
ota_http_event_handler (on_data n) (ctx, o) =
    let ctx' = record ctx { total_received = ctx.total_received + n } in
    let p = next_progress ctx' in
    let shown = publish_progress downloading p (some ctx'.total_received) ctx.content_length o in
    if n == 0
    then (ctx, o)
    else (if p == ctx.last_progress then (ctx', o) else (record ctx' { last_progress = p }, shown))
ota_http_event_handler on_finish (ctx, o) =
    (ctx, publish_progress download_complete 100 (some ctx.total_received) ctx.content_length o)
ota_http_event_handler on_error (ctx, o) =
    (ctx, publish_progress failed ctx.last_progress (some ctx.total_received) ctx.content_length o)

unfoldable pub run_http_events : List HttpEvent → ProgressCtx × Ota → ProgressCtx × Ota
unfolding ota_http_event_handler
run_http_events [] x = x
run_http_events (e ∷ es) x = run_http_events es (ota_http_event_handler e x)

-- What the calls of an update return: the memory for the context and the two copies of the URL, the
-- partition of the next application, the size of the storage partition and whether it is mounted,
-- the download of its image, the events of the download of the firmware, and its result.
pub record UpdateRun : Type 0 where
  pub has_context : Bool
  pub has_memory : Bool
  pub has_memory' : Bool
  pub next_app : Option AppPartition
  pub partition : Label → Option (ℕ × Bool)
  pub image : ImageRun
  pub events : List HttpEvent
  pub firmware : EspErr

-- What an update made: its result, the partition that was written, and whether the firmware was
-- asked for and installed; then the program restarts.
pub record Update : Type 0 where
  pub result : EspErr
  pub image : Option (Label × Image)
  pub installed : Bool

abbrev pub stopped : EspErr → Update
stopped err = record { result = err; image = none; installed = false }

-- The part of `ota_manager_run_github_ota` from the download of the firmware on.
unfoldable pub install_firmware : UpdateRun → Label × Image → Ota → Update × Ota
unfolding run_http_events publish_progress
install_firmware r image o0 =
    let start : ProgressCtx = record {
      total_received = 0;
      content_length = some 0;
      last_progress = 0;
    } in
    let (ctx, o) = run_http_events r.events (start, o0) in
    let flashed =
      publish_progress pending_reboot 100 none none
        (publish_progress flashing 100 (some ctx.total_received) ctx.content_length o) in
    if is_ok r.firmware
    then (
      record { result = ok; image = some image; installed = true },
      record flashed { fast_heartbeat = false },
    )
    else (
      record { result = r.firmware; image = some image; installed = false },
      publish_progress failed ctx.last_progress (some ctx.total_received) ctx.content_length o,
    )

-- The part from the look at the storage partition on, by its size and whether it is mounted.
unfoldable pub write_partition : UpdateRun → Label → Option (ℕ × Bool) → Ota → Update × Ota
unfolding download_partition_image install_firmware publish_progress
write_partition r l none o = (stopped not_found, publish_progress failed 0 none none o)
write_partition r l (some (size, true)) o =
    (stopped invalid_state, publish_progress failed 0 none none o)
write_partition r l (some (size, false)) o =
    let ready = publish_progress preparing_storage 0 none none o in
    let (err, image) = download_partition_image r.image size in
    let written : Update = record { result = err; image = some (l, image); installed = false } in
    let done = install_firmware r (l, image) ready in
    if is_ok err then done else (written, publish_progress failed 0 none none ready)

-- The part for the storage partition, whose label is known.
unfoldable pub update_storage : UpdateRun → List ℕ → List ℕ → Label → Ota → Update × Ota
unfolding storage_image_url write_partition publish_progress
update_storage r url storage_url l o =
    let (err, _) = storage_image_url r.has_memory r.has_memory' url storage_url l in
    let unnamed : Ota = elim err [
      | invalid_arg ↦ publish_progress failed 0 (some 0) none o
      | other_code ↦ publish_progress failed 0 none none o
    ] in
    if is_ok err then write_partition r l (r.partition l) o else (stopped err, unnamed)

-- `ota_manager_run_github_ota`, of strings without their terminators; a storage URL that is NULL is
-- empty.
unfoldable pub run_github_ota : UpdateRun → List ℕ → List ℕ → Ota → Update × Ota
unfolding update_storage storage_label_for_next_app publish_progress
run_github_ota r url storage_url o0 =
    let o = publish_progress requested 0 (some 0) none (record o0 { fast_heartbeat = true }) in
    let lost = publish_progress failed 0 (some 0) none o in
    let begun : Update × Ota = elim (storage_label_for_next_app r.next_app) [
      | none ↦ (stopped invalid_state, lost)
      | some l ↦ update_storage r url storage_url l o
    ] in
    elim url [
      | [] ↦ (stopped invalid_arg, o0)
      | c ∷ cs ↦ if r.has_context then begun else (stopped no_mem, lost)
    ]
