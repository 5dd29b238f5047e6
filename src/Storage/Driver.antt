-- ===== src/Storage/Driver.antt =====
-- The non-volatile storage of ESP-IDF, for the two keys of the namespace `nvs_storage`, and the
-- opening of it.
use esp32_s3_hot_tub_base.Base.{ℕ, ◌≡◌, ◌^◌, ◌<◌, Bool, true, false, List, length, if◌then◌else◌}
use esp32_s3_hot_tub_base.Esp.{EspErr, ok, nvs_no_free_pages, nvs_new_version_found, is_ok}

-- A call returns its code and the flash after it, a read its code and the value. A failed
-- `nvs_flash_erase` aborts the program, so there is no state after it.
pub record NvsStore : Type 1 where
  pub Flash : Type 0
  pub flash_init : Flash → EspErr × Flash
  pub flash_erase : Flash → Flash
  pub nvs_open : Flash → EspErr × Flash
  pub blob_size : Flash → EspErr × ℕ
  pub get_blob : Flash → EspErr × List ℕ
  pub set_blob : List ℕ → Flash → EspErr × Flash
  pub get_u32 : Flash → EspErr × ℕ
  pub set_u32 : ℕ → Flash → EspErr × Flash
  pub commit : Flash → EspErr × Flash

-- What was written and committed is what is read, with its size.
pub record NvsStoreLaws (nvs : NvsStore) : Type 0 where
  pub blob_back :
      (b : List ℕ) (f : nvs.Flash)
      → (nvs.set_blob b f).0 ≡ ok
      → (nvs.commit (nvs.set_blob b f).1).0 ≡ ok
      → let written = (nvs.commit (nvs.set_blob b f).1).1 in
        (nvs.blob_size written ≡ (ok, length b)) × (nvs.get_blob written ≡ (ok, b))
  pub u32_back :
      (n : ℕ) (f : nvs.Flash)
      → n < 2 ^ 32
      → (nvs.set_u32 n f).0 ≡ ok
      → (nvs.commit (nvs.set_u32 n f).1).0 ≡ ok
      → nvs.get_u32 (nvs.commit (nvs.set_u32 n f).1).1 ≡ (ok, n)

-- Initializing the storage after a restart and opening it succeed, and keep the blob.
pub record NvsReopens (nvs : NvsStore) : Type 0 where
  pub init_ok : (f : nvs.Flash) → (nvs.flash_init f).0 ≡ ok
  pub init_size : (f : nvs.Flash) → nvs.blob_size (nvs.flash_init f).1 ≡ nvs.blob_size f
  pub init_blob : (f : nvs.Flash) → nvs.get_blob (nvs.flash_init f).1 ≡ nvs.get_blob f
  pub open_ok : (f : nvs.Flash) → (nvs.nvs_open f).0 ≡ ok
  pub open_size : (f : nvs.Flash) → nvs.blob_size (nvs.nvs_open f).1 ≡ nvs.blob_size f
  pub open_blob : (f : nvs.Flash) → nvs.get_blob (nvs.nvs_open f).1 ≡ nvs.get_blob f

-- `s_initialized`, with the flash behind the handle.
pub record Storage (nvs : NvsStore) : Type 0 where
  pub initialized : Bool
  pub flash : nvs.Flash

-- `err == ESP_ERR_NVS_NO_FREE_PAGES || err == ESP_ERR_NVS_NEW_VERSION_FOUND`
abbrev pub needs_erase : EspErr → Bool
needs_erase nvs_no_free_pages = true
needs_erase nvs_new_version_found = true
needs_erase other_code = false

module _ (nvs : NvsStore) where
  open nvs use {Flash, flash_init, flash_erase, nvs_open}

  -- `nvs_flash_init`, once more after an erase if the partition cannot be used.
  unfoldable pub init_or_erase : Flash → EspErr × Flash
  init_or_erase f =
      let (err, f') = flash_init f in
      if needs_erase err then flash_init (flash_erase f') else (err, f')

  unfoldable pub open_storage : Storage nvs → EspErr × Storage nvs
  unfolding init_or_erase
  open_storage s =
      if s.initialized
      then (ok, s)
      else (let (err, f) = init_or_erase s.flash in
          if is_ok err
          then (let (err', f') = nvs_open f in
              if is_ok err'
              then (ok, record { initialized = true; flash = f' })
              else (err', record { initialized = false; flash = f' }))
          else (err, record { initialized = false; flash = f }))

  -- The storage after a restart: the flash as it was, and not initialized.
  abbrev pub restarted : Storage nvs → Storage nvs
  restarted s = record s { initialized = false }
