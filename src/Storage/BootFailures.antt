-- ===== src/Storage/BootFailures.antt =====
-- components/nvs_storage/src/nvs_storage.c: the counter of boot failures, a `uint32_t`.
use esp32_s3_hot_tub_base.Base.{ℕ, ◌+◌, ◌%◌, ◌^◌, if◌then◌else◌}
use esp32_s3_hot_tub_base.Esp.{EspErr, ok, nvs_not_found, is_ok}
use esp32_s3_hot_tub_base.Storage.Driver.{NvsStore, Storage, open_storage}

module _ (nvs : NvsStore) where
  open nvs use {get_u32, set_u32, commit}

  -- `nvs_storage_get_boot_failures`, of a pointer that is not NULL; without the storage the number
  -- behind it keeps its value.
  unfoldable pub get_boot_failures : ℕ → Storage nvs → EspErr × ℕ × Storage nvs
  unfolding open_storage
  get_boot_failures old s0 =
      let (err, s) = open_storage nvs s0 in
      let (err', n) = get_u32 s.flash in
      let res : EspErr × ℕ = elim err' [ nvs_not_found ↦ (ok, 0) | other_code ↦ (other_code, n) ] in
      if is_ok err then (res.0, res.1, s) else (err, old, s)

  -- `nvs_storage_set_boot_failures`
  unfoldable pub set_boot_failures : ℕ → Storage nvs → EspErr × Storage nvs
  unfolding open_storage
  set_boot_failures n s0 =
      let (err, s) = open_storage nvs s0 in
      let (err', f) = set_u32 n s.flash in
      let (err'', f') = commit f in
      if is_ok err
      then (if is_ok err' then (err'', record s { flash = f' }) else (err', record s { flash = f }))
      else (err, s)

  -- `nvs_storage_increment_boot_failures`, of a pointer to `old`.
  unfoldable pub increment_boot_failures : ℕ → Storage nvs → EspErr × ℕ × Storage nvs
  unfolding get_boot_failures set_boot_failures
  increment_boot_failures old s0 =
      let (err, n, s) = get_boot_failures 0 s0 in
      let value = (n + 1) % 2 ^ 32 in
      let (err', s') = set_boot_failures value s in
      if is_ok err then (if is_ok err' then (ok, value, s') else (err', old, s')) else (err, old, s)

  -- `nvs_storage_reset_boot_failures`
  unfoldable pub reset_boot_failures : Storage nvs → EspErr × Storage nvs
  unfolding set_boot_failures
  reset_boot_failures s = set_boot_failures 0 s
