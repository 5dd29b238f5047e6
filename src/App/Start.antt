-- ===== src/App/Start.antt =====
-- components/app_controller/src/app_controller.c: `app_start`. What the components without a model
-- return is an argument.
use esp32_s3_hot_tub_base.Base.{
  ℕ, Bool, true, false, ◌&&◌, List, Option, none, some, ltb, length, take, ◌-◌, if◌then◌else◌,
}
use esp32_s3_hot_tub_base.Esp.{EspErr, ok, not_found, is_ok}
use esp32_s3_hot_tub_base.Json.Registry.{Entry}
use esp32_s3_hot_tub_base.Storage.Driver.{NvsStore, Storage, open_storage}
use esp32_s3_hot_tub_base.Storage.Credentials.{
  get_wifi_credentials, field_of, ssid_storage_size, password_storage_size,
}
use esp32_s3_hot_tub_base.Ota.Boot.{note_boot, mark_app_ready}
use esp32_s3_hot_tub_base.Wifi.State.{Credentials, no_credentials, Wifi}
use esp32_s3_hot_tub_base.Wifi.Start.{StartRun, wifi_start}

-- What the calls of one start return. `feed n` is the n-th feed of the watchdog, from 0; `reboots`
-- says that a rollback that is asked for does not return; `built_in` are WIFI_CREDENTIALS_SSID and
-- WIFI_CREDENTIALS_PASSWORD.
pub record StartCalls (S Item : Type 0) : Type 0 where
  pub watchdog : EspErr
  pub register_task : EspErr
  pub feed : ℕ → EspErr
  pub running : Bool
  pub pending : Bool
  pub grown : Bool
  pub grown' : Bool
  pub github : Item → S → S × Item
  pub manifest : Item → S → S × Item
  pub reboots : Bool
  pub built_in : List ℕ × List ℕ
  pub wifi : StartRun
  pub web_server : EspErr
  pub ble : EspErr
  pub cancelled : EspErr
  pub rgb_led : EspErr
  pub sensor : EspErr
  pub controller : EspErr

-- The credentials that the Wi-Fi manager is started with.
abbrev pub credentials_to_use : List ℕ × List ℕ → Option (List ℕ × List ℕ) → Credentials
credentials_to_use built_in (some (ssid, password)) = record {
  ssid = field_of ssid_storage_size ssid;
  password = field_of password_storage_size password;
}
credentials_to_use (ssid, password) none =
    if ltb 0 (length ssid)
    then record {
      ssid = field_of ssid_storage_size (take (ssid_storage_size - 1) ssid);
      password = field_of password_storage_size (take (password_storage_size - 1) password);
    }
    else no_credentials

-- Credentials that are missing are no error.
abbrev pub loaded : EspErr → EspErr
loaded not_found = ok
loaded err = err

module _ (nvs : NvsStore) where
  -- How far a start came: its result, whether it ended in a reboot, and the states it leaves.
  pub record AppState : Type 0 where
    pub result : EspErr
    pub rebooted : Bool
    pub storage : Storage nvs
    pub wifi : Wifi

  abbrev pub app_state : Storage nvs → Wifi → AppState
  app_state s w = record { result = ok; rebooted = false; storage = s; wifi = w }

  -- ESP_RETURN_ON_ERROR
  abbrev pub return_on_error : EspErr → AppState → AppState → AppState
  return_on_error err here next = if is_ok err then next else record here { result = err }

  module _ {S Item : Type 0} (c : StartCalls S Item) where
    -- From `ota_manager_mark_app_ready` on.
    unfoldable pub start_ready : Storage nvs → Wifi → AppState
    unfolding mark_app_ready
    start_ready s0 w =
        let (err, s) = mark_app_ready nvs c.cancelled s0 in
        let here = app_state s w in
        return_on_error err here (
          return_on_error (c.feed 5) here (
            return_on_error c.rgb_led here (
              return_on_error (c.feed 6) here
                (return_on_error c.sensor here (return_on_error c.controller here here)))))

    -- From the start of the web server on.
    unfoldable pub start_services : Storage nvs → Wifi → AppState
    unfolding start_ready
    start_services s w =
        let here = app_state s w in
        return_on_error (c.feed 2) here (
          return_on_error c.web_server here (
            return_on_error (c.feed 3) here
              (return_on_error c.ble here (return_on_error (c.feed 4) here (start_ready s w)))))

    -- From the loading of the credentials on.
    unfoldable pub start_network : Storage nvs → Wifi → AppState
    unfolding get_wifi_credentials wifi_start start_services
    start_network s0 w0 =
        let (err, strings, s) =
          get_wifi_credentials nvs ssid_storage_size password_storage_size s0 in
        let (w, err') = wifi_start c.wifi (some (credentials_to_use c.built_in strings)) w0 in
        return_on_error (loaded err) (app_state s w0)
          (return_on_error err' (app_state s w) (start_services s w))

    -- From the boot check on.
    unfoldable pub start_checked : List (Entry S Item) → Storage nvs → Wifi → AppState
    unfolding note_boot start_network
    start_checked registry s0 w =
        let (err, asked, s, registry') =
          note_boot nvs c.running c.grown c.grown' c.pending c.github c.manifest registry s0 in
        let here = app_state s w in
        let next = return_on_error err here (return_on_error (c.feed 1) here (start_network s w)) in
        if asked && c.reboots then record here { rebooted = true } else next

    -- `app_start`
    unfoldable pub app_start : List (Entry S Item) → Storage nvs → Wifi → AppState
    unfolding open_storage start_checked
    app_start registry s0 w =
        let (err, s) = open_storage nvs s0 in
        return_on_error c.watchdog (app_state s0 w) (
          return_on_error c.register_task (app_state s0 w) (
            return_on_error err (app_state s w)
              (return_on_error (c.feed 0) (app_state s w) (start_checked registry s w))))
