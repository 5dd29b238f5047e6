-- ===== src/Storage/Restart.antt =====
-- The credentials are read after a restart as before it.
use esp32_s3_hot_tub_base.Base.{ℕ, ◌≡◌, true, false, refl, arith}
use esp32_s3_hot_tub_base.Esp.{ok}
use esp32_s3_hot_tub_base.Storage.Driver.{
  NvsStore, NvsReopens, Storage, init_or_erase, open_storage, restarted,
}
use esp32_s3_hot_tub_base.Storage.Credentials.{get_wifi_credentials}

module _ (nvs : NvsStore) where
  open nvs use {blob_size, get_blob}

  open_storage-reopens :
      NvsReopens nvs
      → (s : Storage nvs) → s.initialized ≡ false
      → let r = open_storage nvs s in
        (r.0 ≡ ok)
        × (blob_size r.1.flash ≡ blob_size s.flash)
        × (get_blob r.1.flash ≡ get_blob s.flash)
  unfolding open_storage init_or_erase
  open_storage-reopens again s closed =
      let f = (nvs.flash_init s.flash).1 in
      ground (
        arith,
        again.init_ok s.flash,
        again.init_size s.flash,
        again.init_blob s.flash,
        again.open_ok f,
        again.open_size f,
        again.open_blob f,
      )

  -- A reader that opens the storage reads what one reads that finds it open.
  pub get_wifi_credentials-reopens :
      NvsReopens nvs
      → (m n : ℕ) (s : Storage nvs) → s.initialized ≡ true
      → let now = get_wifi_credentials nvs m n s in
        let later = get_wifi_credentials nvs m n (restarted nvs s) in
        (later.0 ≡ now.0) × (later.1 ≡ now.1)
  unfolding get_wifi_credentials
  get_wifi_credentials-reopens again m n s opened =
      ground (arith, open_storage-reopens again (restarted nvs s) refl)
