-- ===== src/WebServer/Files.antt =====
-- components/web_server/src/web_server.c: the partition of the web page, and the static files with
-- their validators.
use esp32_s3_hot_tub_base.Base.{
  ℕ, ◌+◌, ◌%◌, ◌^◌, Bool, true, false, ◌&&◌, List, [], ◌∷◌, Option, none, some, take, set,
  replicate, ◌==◌, if◌then◌else◌,
}
use esp32_s3_hot_tub_base.Esp.{EspErr, ok, fail, invalid_state}

-- The labels "storage_0" and "storage_1".
pub data Label : Type 0 where
  storage_0 storage_1 : Label

-- What mounting a partition returns, and whether it has the index page, plain or compressed.
pub record Mounted : Type 0 where
  pub registered : EspErr
  pub has_index : Bool

abbrev pub is_registered : EspErr → Bool
is_registered ok = true
is_registered invalid_state = true
is_registered _ = false

-- One candidate of `mount_littlefs`: whether it is taken.
abbrev pub is_mounted : Mounted → Bool
is_mounted m = is_registered m.registered && m.has_index

-- `mount_littlefs`, by whether the application of OTA slot 1 runs.
unfoldable pub mount_littlefs : Bool → (Label → Mounted) → EspErr × Option Label
mount_littlefs runs_ota_1 partition =
    let primary = if runs_ota_1 then storage_1 else storage_0 in
    let fallback = if runs_ota_1 then storage_0 else storage_1 in
    if is_mounted (partition primary)
    then (ok, some primary)
    else (if is_mounted (partition fallback) then (ok, some fallback) else (fail, none))

-- `strcmp(a, b) == 0`, of strings without their terminators.
unfoldable pub same_bytes : List ℕ → List ℕ → Bool
same_bytes [] [] = true
same_bytes [] (b ∷ bs) = false
same_bytes (a ∷ rest) [] = false
same_bytes (a ∷ rest) (b ∷ bs) = a == b && same_bytes rest bs

-- `strrchr(path, '.')`: the part from the last dot on.
unfoldable pub extension : List ℕ → Option (List ℕ)
extension [] = none
extension (b ∷ bs) =
    let rest = extension bs in
    elim rest [ some e ↦ some e | none ↦ if b == b'.' then some (b ∷ bs) else none ]

pub data ContentType : Type 0 where
  text_plain text_html text_css javascript : ContentType

-- `content_type_for_path`
unfoldable pub content_type_for_path : List ℕ → ContentType
unfolding extension same_bytes
content_type_for_path path = elim (extension path) [
  | none ↦ text_plain
  | some e ↦
      if same_bytes e (b'.' ∷ b'h' ∷ b't' ∷ b'm' ∷ b'l' ∷ [])
      then text_html
      else (if same_bytes e (b'.' ∷ b'c' ∷ b's' ∷ b's' ∷ [])
          then text_css
          else (if same_bytes e (b'.' ∷ b'j' ∷ b's' ∷ []) then javascript else text_plain))
]

-- `etag_entry_t`, its path as a string.
pub record EtagEntry : Type 0 where
  pub path : List ℕ
  pub size : ℕ
  pub crc : ℕ

-- `s_etag_cache` and `s_etag_next`
pub record EtagCache : Type 0 where
  pub entries : List EtagEntry
  pub next : ℕ

abbrev pub etag_cache_size : ℕ
etag_cache_size = 16

abbrev pub empty_cache : EtagCache
empty_cache = record {
  entries = replicate etag_cache_size (record { path = []; size = 0; crc = 0 });
  next = 0;
}

-- The search of the cache for the checksum of a path and a size.
unfoldable pub cached_crc : List ℕ → ℕ → List EtagEntry → Option ℕ
unfolding same_bytes
cached_crc path size [] = none
cached_crc path size (e ∷ es) =
    let rest = cached_crc path size es in
    if e.size == size && same_bytes e.path path then some e.crc else rest

-- The end of `file_etag`, by the checksum that was found, and that of the bytes that the file has
-- now, if it can be opened.
unfoldable pub etag_from : Option ℕ → Option ℕ → List ℕ → ℕ → EtagCache → Option (ℕ × ℕ) × EtagCache
etag_from (some crc) read_crc path size c = (some (crc, size), c)
etag_from none none path size c = (none, c)
etag_from none (some crc) path size c = (
  some (crc, size),
  record {
    entries =
        set c.entries c.next (record { path = take 95 path; size = size % 2 ^ 32; crc = crc });
    next = (c.next + 1) % etag_cache_size;
  },
)

-- `file_etag`: the checksum that the validator is made of, with the size.
unfoldable pub file_etag : Option ℕ → List ℕ → ℕ → EtagCache → Option (ℕ × ℕ) × EtagCache
unfolding cached_crc etag_from
file_etag read_crc path size c = etag_from (cached_crc path size c.entries) read_crc path size c
