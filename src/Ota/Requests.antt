-- ===== src/Ota/Requests.antt =====
-- components/ota_manager/src/ota_manager.c: the manifest of an update, and the requests for one.
use esp32_s3_hot_tub_base.Base.{
  ℕ, Bool, true, false, not, ◌&&◌, ◌||◌, List, [], ◌∷◌, Option, none, some, if◌then◌else◌,
}
use esp32_s3_hot_tub_base.Esp.{EspErr, ok, no_mem, invalid_arg, invalid_state, is_ok}
use esp32_s3_hot_tub_base.WebServer.Files.{same_bytes}
use esp32_s3_hot_tub_base.Ota.Urls.{has_prefix}
use esp32_s3_hot_tub_base.Ota.Images.{BufferRun, download_url_to_buffer}
use esp32_s3_hot_tub_base.Ota.Update.{
  Update, UpdateRun, Ota, failed, up_to_date, publish_progress, reserve, release, run_github_ota,
}

-- What cJSON makes of the text of a manifest: whether it parses and is an object, its members
-- that are strings, and whether there is memory for their copies.
pub record ManifestRun : Type 0 where
  pub is_object : List ℕ → Bool
  pub version : List ℕ → Option (List ℕ)
  pub url : List ℕ → Option (List ℕ)
  pub storage_url : List ℕ → Option (List ℕ)
  pub has_memory : Bool

abbrev pub is_empty_text : List ℕ → Bool
is_empty_text [] = true
is_empty_text (b ∷ bs) = false

-- The three members, when each is there.
abbrev pub all_three :
    Option (List ℕ) → Option (List ℕ) → Option (List ℕ) → Option (List ℕ × List ℕ × List ℕ)
all_three (some a) (some b) (some c) = some (a, b, c)
all_three _ _ _ = none

-- `ota_manager_parse_manifest`: the version, the URL of the firmware and that of the storage image.
unfoldable pub parse_manifest : ManifestRun → List ℕ → EspErr × Option (List ℕ × List ℕ × List ℕ)
parse_manifest r text =
    let members : EspErr × Option (List ℕ × List ℕ × List ℕ) =
      elim (all_three (r.version text) (r.url text) (r.storage_url text)) [
        | none ↦ (invalid_arg, none)
        | some (v, u, s) ↦
            if is_empty_text v || is_empty_text u || is_empty_text s
            then (invalid_arg, none)
            else (if r.has_memory then (ok, some (v, u, s)) else (no_mem, none))
      ] in
    if r.is_object text then members else (invalid_arg, none)

-- Nothing was written or installed.
abbrev pub nothing_done : EspErr → Update
nothing_done err = record { result = err; image = none; installed = false }

-- `ota_manager_run_manifest_ota`, by the version of the firmware that runs.
unfoldable pub run_manifest_ota : List ℕ → BufferRun → ManifestRun → UpdateRun → Ota → Update × Ota
unfolding download_url_to_buffer parse_manifest run_github_ota same_bytes
run_manifest_ota app_version d p r o =
    let (err, buffer) = download_url_to_buffer d in
    elim buffer [
      | none ↦ (nothing_done err, o)
      | some (text, size) ↦
          let (err', members) = parse_manifest p text in
          elim members [
            | none ↦ (nothing_done err', o)
            | some (version, url, storage_url) ↦
                let updated = run_github_ota r url storage_url o in
                if same_bytes version app_version then (nothing_done ok, o) else updated
          ]
    ]

-- `ota_manager_trigger_github_ota` and `ota_manager_trigger_manifest_ota`, of the update that they
-- run under the reservation.
unfoldable pub trigger_ota : (Ota → Update × Ota) → List ℕ → Ota → Update × Ota
unfolding reserve release
trigger_ota run url o0 =
    let (available, o) = reserve o0 in
    let (update, o') = run o in
    elim url [
      | [] ↦ (nothing_done invalid_arg, o0)
      | c ∷ cs ↦ if available then (update, release o') else (nothing_done invalid_state, o0)
    ]

abbrev pub https : List ℕ
https = b'h' ∷ b't' ∷ b't' ∷ b'p' ∷ b's' ∷ b':' ∷ b'/' ∷ b'/' ∷ []

-- A URL of at least one character behind "https://".
unfoldable pub is_https : List ℕ → Bool
unfolding has_prefix same_bytes
is_https url = has_prefix https url && not (same_bytes url https)

-- What the request of a web client has and what its calls return: the URL and the storage URL, if
-- they are given, and whether they are strings; the memory, and whether the task is created.
pub record WebRequest : Type 0 where
  pub url : Option (List ℕ)
  pub storage : Option (Option (List ℕ))
  pub has_memory : Bool
  pub task : Bool

abbrev pub is_bad_storage : Option (Option (List ℕ)) → Bool
is_bad_storage none = false
is_bad_storage (some none) = true
is_bad_storage (some (some [])) = false
is_bad_storage (some (some (b ∷ bs))) = not (is_https (b ∷ bs))

abbrev pub is_bad_url : Option (List ℕ) → Bool
is_bad_url none = true
is_bad_url (some url) = not (is_https url)

-- `ota_manager_queue_web_request`, up to its response: the result that the response reports. The
-- reservation stays with the task.
unfoldable pub queue_web_request : WebRequest → Ota → EspErr × Ota
unfolding is_https reserve release
queue_web_request q o0 =
    let (available, o) = reserve o0 in
    if is_bad_url q.url || is_bad_storage q.storage
    then (invalid_arg, o0)
    else (if not available
        then (invalid_state, o0)
        else (if q.has_memory && q.task then (ok, o) else (no_mem, release o)))

-- `ota_manager_web_task`, of the update that it runs.
unfoldable pub web_task : (Ota → Update × Ota) → Ota → Update × Ota
unfolding publish_progress release
web_task run o0 =
    let (update, o) = run o0 in
    let told =
      if is_ok update.result
      then publish_progress up_to_date 100 none none o
      else publish_progress failed 0 none none o in
    (update, release told)
