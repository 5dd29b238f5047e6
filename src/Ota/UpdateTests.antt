-- ===== src/Ota/UpdateTests.antt =====
-- Updates, their progress and their requests on small runs.
use esp32_s3_hot_tub_base.Base.{ℕ, ◌≡◌, refl, true, false, List, [], ◌∷◌, ◌++◌, none, some}
use esp32_s3_hot_tub_base.Esp.{ok, fail, invalid_arg, invalid_state}
use esp32_s3_hot_tub_base.WebServer.Files.{storage_0, storage_1}
use esp32_s3_hot_tub_base.Ota.Urls.{ota_1, derive_storage_image_url}
use esp32_s3_hot_tub_base.Ota.Images.{
  ImageRun, holds, download_partition_image, download_url_to_buffer,
}
use esp32_s3_hot_tub_base.Ota.Update.{
  Ota, UpdateRun, on_connected, on_data, run_http_events, run_github_ota,
}
use esp32_s3_hot_tub_base.Ota.Requests.{WebRequest, https, queue_web_request}
use esp32_s3_hot_tub_base.Ota.Complete.{IsSoundUpdate, run_github_ota-IsSoundUpdate}

abbrev idle : Ota
idle = record { in_progress = false; fast_heartbeat = false; published = [] }

abbrev two_reads : ImageRun
two_reads = record {
  client = true;
  opened = ok;
  content_length = 3;
  status_is_200 = true;
  erased = ok;
  reads =
      record { bytes = some (1 ∷ 2 ∷ []); written = ok }
      ∷ record { bytes = some (3 ∷ []); written = ok }
      ∷ [];
}

abbrev update_run : UpdateRun
update_run = record {
  has_context = true;
  has_memory = true;
  has_memory' = true;
  next_app = some ota_1;
  partition = λ l. some (4, false);
  image = two_reads;
  events = on_connected (some 200) ∷ on_data 50 ∷ on_data 150 ∷ [];
  firmware = ok;
}

abbrev firmware_url : List ℕ
firmware_url = https ++ (b'h' ∷ b'/' ∷ b'f' ∷ [])

run_github_ota-IsSoundUpdate_example :
    IsSoundUpdate update_run (run_github_ota update_run firmware_url [] idle).0
run_github_ota-IsSoundUpdate_example = run_github_ota-IsSoundUpdate update_run firmware_url [] idle

installs :
    let u = (run_github_ota update_run firmware_url [] idle).0 in
    (u.installed ≡ true) × (u.image ≡ some (storage_1, holds (1 ∷ 2 ∷ 3 ∷ [])))
unfolding run_github_ota
installs = (refl, refl)

-- An image that is shorter than announced stops the update.
stops_short : (download_partition_image (record two_reads { content_length = 4 }) 4).0 ≡ fail
unfolding download_partition_image
stops_short = refl

progress_in_percent :
    (run_http_events (on_connected (some 200) ∷ on_data 50 ∷ on_data 60 ∷ []) (
      record { total_received = 0; content_length = none; last_progress = 0 },
      idle,
    )).0.last_progress
    ≡ 55
unfolding run_http_events
progress_in_percent = refl

beside_the_firmware :
    derive_storage_image_url true (b'a' ∷ b'/' ∷ b'f' ∷ []) storage_0
    ≡ some (
        b'a' ∷ b'/' ∷ b's' ∷ b't' ∷ b'o' ∷ b'r' ∷ b'a' ∷ b'g' ∷ b'e' ∷ b'_' ∷ b'0' ∷ b'.' ∷ b'b'
        ∷ b'i' ∷ b'n' ∷ [])
unfolding derive_storage_image_url
beside_the_firmware = refl

buffer_doubles :
    download_url_to_buffer (record {
      client = true;
      opened = ok;
      content_length = 2;
      has_memory = true;
      reads = (some (7 ∷ 8 ∷ []), true) ∷ (some (9 ∷ []), true) ∷ [];
    })
    ≡ (ok, some (7 ∷ 8 ∷ 9 ∷ [], 6))
unfolding download_url_to_buffer
buffer_doubles = refl

-- A second request is refused while an update is under way.
one_at_a_time :
    let q : WebRequest = record {
      url = some firmware_url;
      storage = none;
      has_memory = true;
      task = true;
    } in
    (queue_web_request q (queue_web_request q idle).1).0 ≡ invalid_state
unfolding queue_web_request
one_at_a_time = refl

plain_http_refused :
    (queue_web_request
      (record {
        url = some (b'h' ∷ b't' ∷ b't' ∷ b'p' ∷ b':' ∷ b'/' ∷ b'/' ∷ b'x' ∷ []);
        storage = none;
        has_memory = true;
        task = true;
      })
      idle).0
    ≡ invalid_arg
unfolding queue_web_request
plain_http_refused = refl
