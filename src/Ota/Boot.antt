-- ===== src/Ota/Boot.antt =====
-- components/ota_manager/src/ota_manager.c: `ota_manager_note_boot` and `ota_manager_mark_app_ready`.
-- The two update callbacks are arguments, as are the running partition and its image state.
use esp32_s3_hot_tub_base.Base.{ℕ, Bool, false, List, leb, if◌then◌else◌}
use esp32_s3_hot_tub_base.Esp.{EspErr, ok, invalid_state, ota_rollback_invalid_state, is_ok}
use esp32_s3_hot_tub_base.Json.Registry.{Entry, register_command}
use esp32_s3_hot_tub_base.Storage.Driver.{NvsStore, Storage}
use esp32_s3_hot_tub_base.Storage.BootFailures.{increment_boot_failures, reset_boot_failures}

-- `BOOT_FAILURE_LIMIT`
abbrev pub boot_failure_limit : ℕ
boot_failure_limit = 3

module _ (nvs : NvsStore) where
  -- The two registrations, whose results are not looked at.
  unfoldable pub register_ota_commands :
      {S Item : Type 0}
      → Bool
      → Bool
      → (Item → S → S × Item)
      → (Item → S → S × Item)
      → List (Entry S Item)
      → List (Entry S Item)
  unfolding register_command
  register_ota_commands grown grown' github manifest registry =
      (register_command grown' "ota.manager.update.manifest" manifest 0
        (register_command grown "ota.manager.update.github" github 0 registry).0).0

  -- The rest of `ota_manager_note_boot`: `pending` says that the image state was read and is
  -- pending verification. The Boolean of the result says that a rollback and reboot was asked for.
  unfoldable pub check_boot : Bool → Storage nvs → EspErr × Bool × Storage nvs
  unfolding increment_boot_failures reset_boot_failures
  check_boot pending s0 =
      let (err, n, s) = increment_boot_failures nvs 0 s0 in
      let (err', s') = reset_boot_failures nvs s0 in
      if pending
      then (if is_ok err then (ok, leb boot_failure_limit n, s) else (err, false, s))
      else (err', false, s')

  -- `ota_manager_note_boot`
  unfoldable pub note_boot :
      {S Item : Type 0}
      → Bool
      → Bool
      → Bool
      → Bool
      → (Item → S → S × Item)
      → (Item → S → S × Item)
      → List (Entry S Item)
      → Storage nvs
      → EspErr × Bool × Storage nvs × List (Entry S Item)
  unfolding register_ota_commands check_boot
  note_boot running grown grown' pending github manifest registry s0 =
      let (err, rolled_back, s) = check_boot pending s0 in
      if running
      then (err, rolled_back, s, register_ota_commands grown grown' github manifest registry)
      else (invalid_state, false, s0, registry)

  -- `ota_manager_mark_app_ready`, by what `esp_ota_mark_app_valid_cancel_rollback` returns.
  unfoldable pub mark_app_ready : EspErr → Storage nvs → EspErr × Storage nvs
  unfolding reset_boot_failures
  mark_app_ready cancelled s0 =
      let (err, s) = reset_boot_failures nvs s0 in
      let res : EspErr = elim cancelled [
        | ota_rollback_invalid_state ↦ ok
        | other_code ↦ other_code
      ] in
      if is_ok err then (res, s) else (err, s)
