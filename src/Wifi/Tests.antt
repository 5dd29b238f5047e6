-- ===== src/Wifi/Tests.antt =====
-- The Wi-Fi manager on a storage in memory: a boot without a network, a trial that succeeds and one
-- that fails.
use esp32_s3_hot_tub_base.Base.{◌≡◌, refl, true, false, List, [], ◌∷◌, none, some, ℕ, replicate}
use esp32_s3_hot_tub_base.Esp.{ok, fail}
use esp32_s3_hot_tub_base.HotTub.State.{c_string}
use esp32_s3_hot_tub_base.Storage.Driver.{Storage, restarted}
use esp32_s3_hot_tub_base.Storage.Credentials.{get_wifi_credentials}
use esp32_s3_hot_tub_base.Storage.Memory.{memory, memory_laws, memory_reopens, blank}
use esp32_s3_hot_tub_base.Wifi.State.{
  Credentials, no_credentials, disconnected, Wifi, credentials_are_valid, max_clients_count,
  provision_work,
}
use esp32_s3_hot_tub_base.Wifi.Events.{
  Act, event, request, sta_start, sta_disconnected, sta_got_ip, wifi_event_handler, run_act,
}
use esp32_s3_hot_tub_base.Wifi.Trial.{TrialRun, RollbackRun}
use esp32_s3_hot_tub_base.Wifi.Provision.{process_provision_request}
use esp32_s3_hot_tub_base.Wifi.Start.{StartRun, wifi_start}
use esp32_s3_hot_tub_base.Wifi.Steps.{WorkRun, started_up, next, acts}
use esp32_s3_hot_tub_base.Wifi.Invariant.{Modes}
use esp32_s3_hot_tub_base.Wifi.Reached.{Reach-Modes, wifi_start-Modes}
use esp32_s3_hot_tub_base.Wifi.Outcome.{AllOrNothing, provision-AllOrNothing, provisioned_read_back}
use esp32_s3_hot_tub_base.Wifi.Exhaust.{Recovering}
use esp32_s3_hot_tub_base.Wifi.Recovery.{work_off, lost_network_ends_in_ap}

abbrev pub unstarted : Wifi
unstarted = record {
  started = false;
  sta_enabled = false;
  ap_enabled = false;
  provisioning_active = false;
  active_credentials_valid = false;
  ap_fallback_active = false;
  ap_fallback_pending = false;
  sta_attempt_pending = false;
  fallback_retry_pending = false;
  sta_connect_attempts = 0;
  queue_created = false;
  queue = [];
  events_created = false;
  got_ip_bit = false;
  disconnected_bit = false;
  status = record { sta_connected = false; ap_started = false; sta_ip = []; ap_ip = [] };
  published_network = record {
    current_mode = disconnected;
    active_ssid = [];
    ip_address = [];
    internet_connected = false;
    connected_client_count = 0;
    clients = replicate max_clients_count none;
  };
  active_credentials = no_credentials;
  callback_set = true;
  sta_ssid = [];
}

abbrev home : Credentials
home = record { ssid = b'h' ∷ b'o' ∷ replicate 31 0; password = b'p' ∷ b'w' ∷ replicate 63 0 }

abbrev pub good_start : StartRun
good_start = record {
  mutex = true;
  events = true;
  queue = true;
  netif_init = ok;
  event_loop = ok;
  netifs = true;
  wifi_init = ok;
  storage = ok;
  wifi_handler = ok;
  ip_handler = ok;
  init_mode = ok;
  ap_config = ok;
  sta_config = ok;
  mode = ok;
  task = true;
  timer_create = ok;
  timer_start = ok;
  start = ok;
  ap_ip = none;
}

abbrev flash : Storage memory
flash = record { initialized = true; flash = blank }

-- The address arrives in the first wait, which has the index 4.
abbrev linked : ℕ → List Act
linked n = event true (sta_got_ip (some (b'1' ∷ []))) ∷ []

abbrev good_trial : TrialRun
good_trial = record {
  stop = ok;
  set_mode = ok;
  set_config = ok;
  start = ok;
  sta_mode = ok;
  ap_info = ok;
  early = [];
  waits = linked;
  again = linked;
  late = [];
}

abbrev rolled_back : RollbackRun
rolled_back = record {
  set_mode = ok;
  set_config = ok;
  start = ok;
  room = true;
  before = [];
  between = [];
  gap = [];
  ap_ip = none;
}

abbrev no_link : WorkRun
no_link = record {
  connect = ok;
  set_mode = ok;
  start = ok;
  acts = event true sta_disconnected ∷ [];
  room = true;
  ap_ip = none;
  stations = none;
  trial = good_trial;
  rollback = rolled_back;
  retry = record {
    stations = none;
    set_mode = fail;
    set_config = ok;
    sta_mode = ok;
    early = [];
    waits = λ n. [];
    late = [];
    ap_ip = none;
  };
}

abbrev ap_serving : Wifi
ap_serving = (wifi_start good_start none unstarted).0

starts_ok : (wifi_start good_start none unstarted).1 ≡ ok
unfolding wifi_start
starts_ok = refl

Reach-Modes_example : Modes (run_act (request true (some home) 7) ap_serving)
Reach-Modes_example =
    Reach-Modes memory {x = (run_act (request true (some home) 7) ap_serving, flash)} (
      next (started_up good_start none unstarted flash refl starts_ok)
        (acts (request true (some home) 7) ap_serving flash))

provision-AllOrNothing_example :
    let e = process_provision_request memory good_trial rolled_back home 7 (ap_serving, flash) in
    (e.0.provisioning_active ≡ false) × AllOrNothing memory home 7 (ap_serving, flash) e
provision-AllOrNothing_example =
    provision-AllOrNothing memory good_trial rolled_back home 7 ap_serving flash
      (wifi_start-Modes good_start none unstarted refl starts_ok)

provisions :
    (process_provision_request memory good_trial rolled_back home 7 (ap_serving, flash)).2
    ≡ some (7, ok)
unfolding process_provision_request wifi_start
provisions = refl

provisioned_read_back_example :
    let e = process_provision_request memory good_trial rolled_back home 7 (ap_serving, flash) in
    let boot = get_wifi_credentials memory 33 65 (restarted memory e.1) in
    (boot.0 ≡ ok) × (boot.1 ≡ some (c_string home.ssid, c_string home.password))
unfolding credentials_are_valid
provisioned_read_back_example =
    provisioned_read_back memory memory_laws memory_reopens good_trial rolled_back home 7 ap_serving
      flash (wifi_start-Modes good_start none unstarted refl starts_ok) refl provisions

-- A trial without a link: the recovery access point stays, and a failure is reported.
fails_without_link :
    let e =
      process_provision_request memory
        (record good_trial { waits = λ n. [] })
        rolled_back
        home
        7
        (ap_serving, flash) in
    e.0.ap_fallback_active ≡ true
unfolding process_provision_request wifi_start
fails_without_link = refl

-- A request in the gap before the report of a failed one is accepted, and waits while no
-- provisioning is marked active.
gap_request_waits :
    let e =
      process_provision_request memory
        (record good_trial { waits = λ n. [] })
        (record rolled_back { gap = request true (some home) 8 ∷ [] })
        home
        7
        (ap_serving, flash) in
    (e.0.queue ≡ provision_work home 8 ∷ []) × (e.0.provisioning_active ≡ false)
unfolding process_provision_request wifi_start
gap_request_waits = (refl, refl)

starts_sta : (wifi_start good_start (some home) unstarted).1 ≡ ok
unfolding wifi_start
starts_sta = refl

lost_network_ends_in_ap_example :
    Recovering
      (work_off memory (no_link ∷ no_link ∷ no_link ∷ no_link ∷ no_link ∷ no_link ∷ []) (
        wifi_event_handler true sta_start (wifi_start good_start (some home) unstarted).0,
        flash,
      )).0
lost_network_ends_in_ap_example =
    lost_network_ends_in_ap memory good_start home unstarted flash
      (no_link ∷ no_link ∷ no_link ∷ no_link ∷ no_link ∷ no_link ∷ []) refl refl refl refl
      starts_sta
      (
        (refl, refl),
        ((refl, refl), ((refl, refl), ((refl, refl), ((refl, refl), ((refl, refl), tt))))),
      )
