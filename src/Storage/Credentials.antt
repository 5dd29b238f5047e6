-- ===== src/Storage/Credentials.antt =====
-- components/nvs_storage/src/nvs_storage.c: the Wi-Fi credentials as a blob of 99 bytes.
use esp32_s3_hot_tub_base.Base.{
  ℕ, ◌+◌, ◌-◌, Bool, ◌||◌, not, List, [], ◌∷◌, ◌++◌, Option, none, some, length, take, drop,
  replicate, leb, ltb, ◌==◌, if◌then◌else◌,
}
use esp32_s3_hot_tub_base.Esp.{
  EspErr, ok, invalid_arg, invalid_size, invalid_response, not_found, nvs_not_found, is_ok,
}
use esp32_s3_hot_tub_base.HotTub.State.{c_string}
use esp32_s3_hot_tub_base.Storage.Driver.{NvsStore, Storage, open_storage}

-- `WIFI_SSID_STORAGE_SIZE`, `WIFI_PASSWORD_STORAGE_SIZE`, `WIFI_CREDENTIALS_VERSION`
abbrev pub ssid_storage_size : ℕ
ssid_storage_size = 33

abbrev pub password_storage_size : ℕ
password_storage_size = 65

abbrev pub credentials_version : ℕ
credentials_version = 1

-- `wifi_credentials_record_t`: three fields of bytes, so without padding.
pub record WifiRecord : Type 0 where
  pub version : ℕ
  pub ssid : List ℕ
  pub password : List ℕ

-- `sizeof(wifi_credentials_record_t)`
abbrev pub record_bytes : ℕ
record_bytes = 1 + ssid_storage_size + password_storage_size

-- The bytes of a record, and the record of as many bytes.
unfoldable pub to_bytes : WifiRecord → List ℕ
to_bytes r = r.version ∷ (r.ssid ++ r.password)

unfoldable pub of_bytes : List ℕ → WifiRecord
of_bytes [] = record { version = 0; ssid = []; password = [] }
of_bytes (b ∷ bs) = record {
  version = b;
  ssid = take ssid_storage_size bs;
  password = drop ssid_storage_size bs;
}

-- `memchr(field, '\0', size)`
unfoldable pub has_nul : List ℕ → Bool
has_nul [] = Bool.false
has_nul (b ∷ bs) = b == 0 || has_nul bs

-- A string of a known length, copied with its terminator into a zeroed array.
unfoldable pub field_of : ℕ → List ℕ → List ℕ
field_of size str = str ++ replicate (size - length str) 0

-- The checks of the record that was read.
unfoldable pub is_invalid : WifiRecord → Bool
unfolding has_nul c_string
is_invalid r =
    not (r.version == credentials_version)
    || not (has_nul r.ssid)
    || not (has_nul r.password)
    || (length (c_string r.ssid) == 0)

-- `strnlen(str, max)`
unfoldable pub strnlen : List ℕ → ℕ → ℕ
unfolding c_string
strnlen str max = let n = length (c_string str) in if ltb n max then n else max

module _ (nvs : NvsStore) where
  open nvs use {blob_size, get_blob, set_blob, commit}

  -- The part of the reader after the blob was read.
  unfoldable pub checked : ℕ → ℕ → WifiRecord → EspErr × Option (List ℕ × List ℕ)
  unfolding is_invalid c_string
  checked ssid_size password_size r =
      if is_invalid r
      then (invalid_response, none)
      else (if ltb ssid_size (length (c_string r.ssid) + 1)
            || ltb password_size (length (c_string r.password) + 1)
          then (invalid_size, none)
          else (ok, some (c_string r.ssid, c_string r.password)))

  -- What the reader makes of the results of its two calls of `nvs_get_blob`, for the size and for
  -- the bytes.
  unfoldable pub read_record :
      ℕ → ℕ → EspErr × ℕ → EspErr × List ℕ → EspErr × Option (List ℕ × List ℕ)
  unfolding checked of_bytes
  read_record ssid_size password_size (err, size) (err', bytes) =
      let res = checked ssid_size password_size (of_bytes bytes) in
      let size_code : EspErr = elim err [ nvs_not_found ↦ not_found | other_code ↦ other_code ] in
      if not (is_ok err)
      then (size_code, none)
      else (if not (size == record_bytes)
          then (invalid_size, none)
          else (if is_ok err' then res else (err', none)))

  -- `nvs_storage_get_wifi_credentials`, of buffers that are not NULL: the strings that it copies.
  unfoldable pub get_wifi_credentials :
      ℕ → ℕ → Storage nvs → EspErr × Option (List ℕ × List ℕ) × Storage nvs
  unfolding open_storage read_record
  get_wifi_credentials ssid_size password_size s0 =
      if ssid_size == 0 || password_size == 0
      then (invalid_arg, none, s0)
      else (let (err, s) = open_storage nvs s0 in
          let (res, strings) =
            read_record ssid_size password_size (blob_size s.flash) (get_blob s.flash) in
          if is_ok err then (res, strings, s) else (err, none, s))

  -- `nvs_storage_set_wifi_credentials`, of strings that are not NULL.
  unfoldable pub set_wifi_credentials : List ℕ → List ℕ → Storage nvs → EspErr × Storage nvs
  unfolding strnlen open_storage to_bytes field_of c_string
  set_wifi_credentials ssid password s0 =
      let ssid_length = strnlen ssid ssid_storage_size in
      let password_length = strnlen password password_storage_size in
      let r : WifiRecord = record {
        version = credentials_version;
        ssid = field_of ssid_storage_size (c_string ssid);
        password = field_of password_storage_size (c_string password);
      } in
      let (err, s) = open_storage nvs s0 in
      let (err', f) = set_blob (to_bytes r) s.flash in
      let (err'', f') = commit f in
      if ssid_length == 0
        || leb ssid_storage_size ssid_length
        || leb password_storage_size password_length
      then (invalid_size, s0)
      else (if not (is_ok err)
          then (err, s)
          else (if is_ok err'
              then (err'', record s { flash = f' })
              else (err', record s { flash = f })))
