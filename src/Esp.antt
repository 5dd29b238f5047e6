-- ===== src/Esp.antt =====
-- `esp_err_t`: the ESP-IDF result codes that the components return and compare.
use esp32_s3_hot_tub_base.Base.{ℕ, Bool, true, false}

-- A code that no component tests by name is `other`.
pub data EspErr : Type 0 where
  ok fail no_mem invalid_arg invalid_state invalid_size invalid_response : EspErr
  not_found timeout : EspErr
  nvs_not_found nvs_no_free_pages nvs_new_version_found ota_rollback_invalid_state : EspErr
  other : ℕ → EspErr

-- `err == ESP_OK`
abbrev pub is_ok : EspErr → Bool
is_ok ok = true
is_ok _ = false
