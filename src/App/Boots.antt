-- ===== src/App/Boots.antt =====
-- The boots of an image whose application does not start, with the boot check of the OTA manager.
use esp32_s3_hot_tub_base.Base.{
  ℕ, suc, ◌+◌, ◌^◌, ◌<◌, ◌≡◌, refl, ◌⊎◌, subst, ◌∙◌, ap, inl, some, Bool, true, false, ◌&&◌, List,
  [], ◌∷◌, All, length, leb, Bool-cases, inr, sym, if◌then◌else◌, arith,
}
use esp32_s3_hot_tub_base.Esp.{EspErr, ok, nvs_not_found, is_ok}
use esp32_s3_hot_tub_base.Json.Registry.{Entry}
use esp32_s3_hot_tub_base.Storage.Driver.{NvsStore, NvsStoreLaws, Storage, open_storage}
use esp32_s3_hot_tub_base.Storage.Credentials.{
  get_wifi_credentials, ssid_storage_size, password_storage_size,
}
use esp32_s3_hot_tub_base.Ota.Boot.{note_boot, check_boot}
use esp32_s3_hot_tub_base.Ota.Rollback.{
  Working, Counts, rollbacks, open_storage-Working, check_boot-pending,
}
use esp32_s3_hot_tub_base.Wifi.State.{Wifi}
use esp32_s3_hot_tub_base.Wifi.Start.{wifi_start}
use esp32_s3_hot_tub_base.App.Start.{
  StartCalls, AppState, app_state, return_on_error, credentials_to_use, loaded, start_services,
  start_network, start_checked, app_start,
}

-- A boot of an image that is pending: the start comes to the boot check, a rollback that is asked for
-- reboots, and the web server or the BLE service does not start.
pub record IsBroken {S Item : Type 0} (c : StartCalls S Item) : Type 0 where
  pub watchdog_ok : is_ok c.watchdog ≡ true
  pub register_ok : is_ok c.register_task ≡ true
  pub fed : is_ok (c.feed 0) ≡ true
  pub has_partition : c.running ≡ true
  pub is_pending : c.pending ≡ true
  pub rolls_back : c.reboots ≡ true
  pub stops : is_ok c.web_server && is_ok c.ble ≡ false

module _ (nvs : NvsStore) where
  -- The start goes on without a rollback, and the counter is kept.
  abbrev Keeps : nvs.Flash → AppState nvs → Type 0
  Keeps f a = (a.rebooted ≡ false) × (nvs.get_u32 a.storage.flash ≡ nvs.get_u32 f)

  return_on_error-Keeps :
      (f : nvs.Flash) (err : EspErr) (here next : AppState nvs)
      → Keeps f here
      → (is_ok err ≡ true → Keeps f next)
      → Keeps f (return_on_error nvs err here next)
  return_on_error-Keeps f err here next k n = elim (Bool-cases (is_ok err)) [
    | inl e ↦ rw e (n e)
    | inr e ↦ rw e k
  ]

  -- Where a rollback is asked for, it reboots.
  rolled_back-Keeps :
      (asked reboots : Bool) (s : Storage nvs) (w : Wifi) (next : AppState nvs)
      → reboots ≡ true
      → Keeps s.flash next
      → let a : AppState nvs =
          if asked && reboots then record (app_state nvs s w) { rebooted = true } else next in
        (a.rebooted ≡ asked) × (nvs.get_u32 a.storage.flash ≡ nvs.get_u32 s.flash)
  rolled_back-Keeps false reboots s w next e k = k
  rolled_back-Keeps true reboots s w next e k = rw e (refl, refl)

  get_wifi_credentials-keeps :
      (works : Working nvs) (laws : NvsStoreLaws nvs) (s : Storage nvs)
      → let r = get_wifi_credentials nvs ssid_storage_size password_storage_size s in
        nvs.get_u32 r.2.flash ≡ nvs.get_u32 s.flash
  unfolding get_wifi_credentials
  get_wifi_credentials-keeps works laws s =
      let o = (open_storage-Working nvs works laws s).2 in ground (arith, o)

  -- The boot check of an image that is pending.
  note_boot-pending :
      {S Item : Type 0} (running grown grown' pending : Bool)
      (github manifest : Item → S → S × Item) (registry : List (Entry S Item)) (s : Storage nvs)
      → running ≡ true
      → pending ≡ true
      → let r = note_boot nvs running grown grown' pending github manifest registry s in
        let t = check_boot nvs true s in (r.1 ≡ t.1) × (r.2 ≡ t.2)
  unfolding note_boot
  note_boot-pending running grown grown' pending github manifest registry s e e' =
      rw e (rw e' (refl, refl))

module _ (nvs : NvsStore) {S Item : Type 0} where
  -- For each boot whether it ends in the reboot of a rollback. At a boot the storage is not open, the
  -- Wi-Fi manager is as it is at a boot, and no command is registered.
  unfoldable pub run_boots : List (StartCalls S Item) → nvs.Flash → Wifi → List Bool
  unfolding app_start
  run_boots [] f w = []
  run_boots (c ∷ cs) f w =
      let a = app_start nvs c [] (record { initialized = false; flash = f }) w in
      a.rebooted ∷ run_boots cs a.storage.flash w

module _ (nvs : NvsStore) (works : Working nvs) (laws : NvsStoreLaws nvs) {S Item : Type 0} where
  start_services-Keeps :
      (c : StartCalls S Item) (s : Storage nvs) (w : Wifi)
      → IsBroken c
      → Keeps nvs s.flash (start_services nvs c s w)
  unfolding start_services
  start_services-Keeps c s w b =
      let here = app_state nvs s w in
      let stops = b.stops in
      return_on_error-Keeps nvs s.flash (c.feed 2) here _ (refl, refl)
        (λ a.
          return_on_error-Keeps nvs s.flash c.web_server here _ (refl, refl)
            (λ web.
              return_on_error-Keeps nvs s.flash (c.feed 3) here _ (refl, refl)
                (λ d.
                  return_on_error-Keeps nvs s.flash c.ble here _ (refl, refl)
                    (λ ble. absurd (ground arith)))))

  start_network-Keeps :
      (c : StartCalls S Item) (s : Storage nvs) (w : Wifi)
      → IsBroken c
      → Keeps nvs s.flash (start_network nvs c s w)
  unfolding start_network
  start_network-Keeps c s w b =
      let r = get_wifi_credentials nvs ssid_storage_size password_storage_size s in
      let kept = get_wifi_credentials-keeps nvs works laws s in
      let given = credentials_to_use c.built_in r.1 in
      let w1 = wifi_start c.wifi (some given) w in
      let n = start_services-Keeps c r.2 w1.0 b in
      return_on_error-Keeps nvs s.flash (loaded r.0) (app_state nvs r.2 w) _ (refl, kept)
        (λ a.
          return_on_error-Keeps nvs s.flash w1.1 (app_state nvs r.2 w1.0) _ (refl, kept)
            (λ d. (n.0, n.1 ∙ kept)))

  start_checked-broken :
      (n : ℕ) (c : StartCalls S Item) (s : Storage nvs) (w : Wifi)
      → IsBroken c
      → Counts nvs s.flash n
      → suc n < 2 ^ 32
      → let a = start_checked nvs c [] s w in
        (a.rebooted ≡ leb 3 (suc n)) × (nvs.get_u32 a.storage.flash ≡ (ok, suc n))
  unfolding start_checked
  start_checked-broken n c s w b counts lt =
      let r = note_boot nvs c.running c.grown c.grown' c.pending c.github c.manifest [] s in
      let t =
        note_boot-pending nvs c.running c.grown c.grown' c.pending c.github c.manifest [] s
          b.has_partition b.is_pending in
      let q = check_boot-pending nvs works laws n s counts lt in
      let k = rolled_back-Keeps nvs r.1 c.reboots r.2 w _ b.rolls_back (
        return_on_error-Keeps nvs r.2.flash r.0 (app_state nvs r.2 w) _ (refl, refl)
          (λ a.
            return_on_error-Keeps nvs r.2.flash (c.feed 1) (app_state nvs r.2 w) _ (refl, refl)
              (λ d. start_network-Keeps c r.2 w b))) in
      (k.0 ∙ t.0 ∙ q.0, k.1 ∙ ap (λ x. nvs.get_u32 x.flash) t.1 ∙ q.1)

  -- A start at a boot counts it, and ends in a rollback if it is the third, or a later one.
  app_start-broken :
      (n : ℕ) (c : StartCalls S Item) (f : nvs.Flash) (w : Wifi)
      → IsBroken c
      → Counts nvs f n
      → suc n < 2 ^ 32
      → let a = app_start nvs c [] (record { initialized = false; flash = f }) w in
        (a.rebooted ≡ leb 3 (suc n)) × (nvs.get_u32 a.storage.flash ≡ (ok, suc n))
  unfolding app_start
  app_start-broken n c f w b counts lt =
      let s0 : Storage nvs = record { initialized = false; flash = f } in
      let o = open_storage-Working nvs works laws s0 in
      let opened : is_ok (open_storage nvs s0).0 ≡ true = ap is_ok o.0 in
      rw b.watchdog_ok (
        rw b.register_ok (
          rw opened (
            rw b.fed (
              start_checked-broken n c (open_storage nvs s0).1 w b
                (subst (λ x. (x ≡ (ok, n)) ⊎ ((x.0 ≡ nvs_not_found) × (n ≡ 0))) (sym o.2) counts)
                lt))))

  -- With a storage that works and returns what it stored, whatever Wi-Fi credentials it has and
  -- whatever the Wi-Fi manager does: an image that is pending, and whose start comes to the boot check
  -- but not past the web server and the BLE service, is rolled back at the boot that makes the count
  -- 3 and at every later one, and at none before, when a rollback that is asked for reboots.
  pub broken_starts_roll_back :
      (cs : List (StartCalls S Item)) (n : ℕ) (f : nvs.Flash) (w : Wifi)
      → All IsBroken cs
      → Counts nvs f n
      → n + length cs < 2 ^ 32
      → run_boots nvs cs f w ≡ rollbacks nvs (length cs) n
  unfolding run_boots
  broken_starts_roll_back [] n f w b counts lt = refl
  broken_starts_roll_back (c ∷ cs) n f w b counts lt =
      let a = app_start nvs c [] (record { initialized = false; flash = f }) w in
      let q = app_start-broken n c f w b.0 counts (omega arith) in
      ap (λ x. x ∷ run_boots nvs cs a.storage.flash w) q.0
      ∙ ap (◌∷◌ (leb 3 (suc n)))
          (broken_starts_roll_back cs (suc n) a.storage.flash w b.1 (inl q.1) (omega arith))
