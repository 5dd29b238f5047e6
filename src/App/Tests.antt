-- ===== src/App/Tests.antt =====
-- Boots of an image whose web server does not start, and of one that starts.
use esp32_s3_hot_tub_base.Base.{ℕ, ◌≡◌, refl, inr, true, false, [], ◌∷◌, arith}
use esp32_s3_hot_tub_base.Esp.{ok, fail}
use esp32_s3_hot_tub_base.Storage.Memory.{memory, memory_laws, blank}
use esp32_s3_hot_tub_base.Ota.Tests.{memory_works}
use esp32_s3_hot_tub_base.Wifi.Tests.{unstarted, good_start}
use esp32_s3_hot_tub_base.App.Start.{StartCalls}
use esp32_s3_hot_tub_base.App.Boots.{IsBroken, run_boots, broken_starts_roll_back}

abbrev healthy : StartCalls ℕ ℕ
healthy = record {
  watchdog = ok;
  register_task = ok;
  feed = λ n. ok;
  running = true;
  pending = true;
  grown = true;
  grown' = true;
  github = λ m s. (s, m);
  manifest = λ m s. (s, m);
  reboots = true;
  built_in = ([], []);
  wifi = good_start;
  web_server = ok;
  ble = ok;
  cancelled = ok;
  rgb_led = ok;
  sensor = ok;
  controller = ok;
}

abbrev no_web : StartCalls ℕ ℕ
no_web = record healthy { web_server = fail }

no_web-IsBroken : IsBroken no_web
no_web-IsBroken = record {
  watchdog_ok = refl;
  register_ok = refl;
  fed = refl;
  has_partition = refl;
  is_pending = refl;
  rolls_back = refl;
  stops = refl;
}

broken_starts_roll_back_example :
    run_boots memory (no_web ∷ (no_web ∷ (no_web ∷ []))) blank unstarted
    ≡ false ∷ (false ∷ (true ∷ []))
broken_starts_roll_back_example =
    broken_starts_roll_back memory memory_works memory_laws (no_web ∷ (no_web ∷ (no_web ∷ []))) 0
      blank unstarted (no_web-IsBroken, (no_web-IsBroken, (no_web-IsBroken, tt))) (inr (refl, refl))
      (omega arith)

-- A start that succeeds between two that do not begins the count afresh.
counts_afresh :
    run_boots memory (no_web ∷ (healthy ∷ (no_web ∷ (no_web ∷ [])))) blank unstarted
    ≡ false ∷ (false ∷ (false ∷ (false ∷ [])))
unfolding run_boots
counts_afresh = refl
