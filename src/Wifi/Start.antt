-- ===== src/Wifi/Start.antt =====
-- components/wifi_manager/src/wifi_manager.c: the start of the component.
use esp32_s3_hot_tub_base.Base.{
  ℕ, Bool, true, false, not, ◌&&◌, List, [], ◌∷◌, Option, none, some, ◌==◌, if◌then◌else◌,
}
use esp32_s3_hot_tub_base.Esp.{EspErr, ok, fail, no_mem, invalid_arg, invalid_size, is_ok}
use esp32_s3_hot_tub_base.Wifi.State.{
  Credentials, is_given, or_zeros, Wifi, ssid_of, credentials_are_valid,
}
use esp32_s3_hot_tub_base.Wifi.Attempts.{publish_ap_fallback_status}
use esp32_s3_hot_tub_base.Wifi.Trial.{first_error}

-- What the calls of `wifi_manager_start` return, in their order, the creations as whether they
-- worked. Failures to set the host name and the bandwidth are only logged.
pub record StartRun : Type 0 where
  pub mutex : Bool
  pub events : Bool
  pub queue : Bool
  pub netif_init : EspErr
  pub event_loop : EspErr
  pub netifs : Bool
  pub wifi_init : EspErr
  pub storage : EspErr
  pub wifi_handler : EspErr
  pub ip_handler : EspErr
  pub init_mode : EspErr
  pub ap_config : EspErr
  pub sta_config : EspErr
  pub mode : EspErr
  pub task : Bool
  pub timer_create : EspErr
  pub timer_start : EspErr
  pub start : EspErr
  pub ap_ip : Option (List ℕ)

-- A creation that fails ends the start with a code of its own.
abbrev pub or_code : EspErr → Bool → EspErr
or_code code created = if created then ok else code

-- The calls before the critical section, and those after it.
unfoldable pub prepared : StartRun → EspErr
prepared r = first_error r.netif_init (
    first_error r.event_loop (
      first_error (or_code fail r.netifs) (
        first_error r.wifi_init (
          first_error r.storage (
            first_error r.wifi_handler
              (first_error r.ip_handler (first_error r.init_mode r.ap_config)))))))

unfoldable pub launched : Bool → StartRun → EspErr
launched has_sta r = first_error (if has_sta then first_error r.sta_config r.mode else r.mode) (
    first_error (or_code no_mem r.task)
      (first_error r.timer_create (first_error r.timer_start r.start)))

-- `text[0] != '\0'`
abbrev pub starts : List ℕ → Bool
starts [] = false
starts (b ∷ bs) = not (b == 0)

-- The credentials that were given, if their name is not empty, and whether only a password was.
abbrev pub sta_given : Option Credentials → Option Credentials
sta_given none = none
sta_given (some c) = if starts c.ssid then some c else none

abbrev pub only_password : Option Credentials → Bool
only_password none = false
only_password (some c) = not (starts c.ssid) && starts c.password

abbrev pub refused : Option Credentials → Bool
refused none = false
refused (some c) = not (credentials_are_valid c)

-- The critical section of `wifi_manager_start`.
unfoldable pub enter_first_mode : Option Credentials → Wifi → Wifi
enter_first_mode given w = record w {
  sta_enabled = is_given given;
  ap_enabled = not (is_given given);
  ap_fallback_active = not (is_given given);
  ap_fallback_pending = false;
  sta_attempt_pending = false;
  sta_connect_attempts = 0;
  active_credentials_valid = is_given given;
  active_credentials = or_zeros given;
  sta_ssid = ssid_of (or_zeros given);
}

-- `wifi_manager_start`. The queue and the events are new, whether or not an earlier start that
-- failed had made some.
unfoldable pub wifi_start : StartRun → Option Credentials → Wifi → Wifi × EspErr
unfolding prepared launched enter_first_mode publish_ap_fallback_status credentials_are_valid
wifi_start r credentials w0 =
    let given = sta_given credentials in
    let has_sta = is_given given in
    let made = record w0 {
      events_created = r.events;
      got_ip_bit = false;
      disconnected_bit = false;
      queue_created = r.queue;
      queue = [];
    } in
    let w = enter_first_mode given made in
    let err = launched has_sta r in
    let on = record w { started = true } in
    let serving =
      publish_ap_fallback_status r.ap_ip
        (record on { status = record (on.status) { ap_started = true } }) in
    if w0.started
    then (w0, ok)
    else (if refused given
        then (w0, invalid_size)
        else (if only_password credentials
            then (w0, invalid_arg)
            else (if not r.mutex
                then (w0, no_mem)
                else (if not (r.events && r.queue)
                    then (made, no_mem)
                    else (if not (is_ok (prepared r))
                        then (made, prepared r)
                        else (if not (is_ok err)
                            then (w, err)
                            else (if has_sta then (on, ok) else (serving, ok))))))))
