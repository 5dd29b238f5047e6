-- ===== src/Ota/Rollback.antt =====
-- Images that never report that they are ready are rolled back at their third boot.
use esp32_s3_hot_tub_base.Base.{
  ℕ, zero, suc, ◌+◌, ◌%◌, ◌^◌, ◌<◌, ◌≡◌, refl, ◌⊎◌, inl, ◌∙◌, ap, Bool, true, false, List, [], ◌∷◌,
  leb, arith,
}
use esp32_s3_hot_tub_base.Esp.{EspErr, ok, nvs_not_found}
use esp32_s3_hot_tub_base.Storage.Driver.{
  NvsStore, NvsStoreLaws, Storage, open_storage, init_or_erase,
}
use esp32_s3_hot_tub_base.Storage.BootFailures.{
  get_boot_failures, set_boot_failures, increment_boot_failures, reset_boot_failures,
}
use esp32_s3_hot_tub_base.Ota.Boot.{check_boot, mark_app_ready}

-- The storage works: its calls succeed, and opening it keeps the counter.
pub record Working (nvs : NvsStore) : Type 0 where
  pub init_ok : (f : nvs.Flash) → (nvs.flash_init f).0 ≡ ok
  pub init_keeps : (f : nvs.Flash) → nvs.get_u32 (nvs.flash_init f).1 ≡ nvs.get_u32 f
  pub open_ok : (f : nvs.Flash) → (nvs.nvs_open f).0 ≡ ok
  pub open_keeps : (f : nvs.Flash) → nvs.get_u32 (nvs.nvs_open f).1 ≡ nvs.get_u32 f
  pub set_ok : (n : ℕ) (f : nvs.Flash) → (nvs.set_u32 n f).0 ≡ ok
  pub commit_ok : (f : nvs.Flash) → (nvs.commit f).0 ≡ ok

module _ (nvs : NvsStore) where
  open nvs use {Flash, get_u32}

  -- The counter in the flash; a missing one counts as 0.
  abbrev pub Counts : Flash → ℕ → Type 0
  Counts f n = (get_u32 f ≡ (ok, n)) ⊎ (((get_u32 f).0 ≡ nvs_not_found) × (n ≡ 0))

  -- The outcome of k boots in a row of an image that stays pending: for each whether a rollback was
  -- asked for. At a boot the storage is not open yet.
  unfoldable pub pending_boots : ℕ → Flash → List Bool
  unfolding check_boot
  pending_boots zero f = []
  pending_boots (suc k) f =
      let (err, rolled_back, s) = check_boot nvs true (record { initialized = false; flash = f }) in
      rolled_back ∷ pending_boots k s.flash

  -- From the count n, a rollback at every boot whose new count is at least 3.
  abbrev pub rollbacks : ℕ → ℕ → List Bool
  rollbacks zero n = []
  rollbacks (suc k) n = leb 3 (suc n) ∷ rollbacks k (suc n)

  module _ (works : Working nvs) (laws : NvsStoreLaws nvs) where
    pub open_storage-Working :
        (s : Storage nvs)
        → let r = open_storage nvs s in
          (r.0 ≡ ok) × (r.1.initialized ≡ true) × (get_u32 r.1.flash ≡ get_u32 s.flash)
    unfolding open_storage init_or_erase
    open_storage-Working s =
        let f = (nvs.flash_init s.flash).1 in
        ground (
          arith,
          works.init_ok s.flash,
          works.open_ok f,
          works.init_keeps s.flash,
          works.open_keeps f,
        )

    get_boot_failures-Counts :
        (n old : ℕ) (s : Storage nvs)
        → Counts s.flash n
        → let r = get_boot_failures nvs old s in (r.0 ≡ ok) × (r.1 ≡ n) × (r.2.initialized ≡ true)
    unfolding get_boot_failures
    get_boot_failures-Counts n old s c = ground (arith, open_storage-Working s)

    set_boot_failures-Counts :
        (n : ℕ) (s : Storage nvs)
        → n < 2 ^ 32
        → let r = set_boot_failures nvs n s in (r.0 ≡ ok) × (get_u32 r.1.flash ≡ (ok, n))
    unfolding set_boot_failures
    set_boot_failures-Counts n s lt =
        let o : Storage nvs = (open_storage nvs s).1 in
        let set' = works.set_ok n o.flash in
        let done = works.commit_ok (nvs.set_u32 n o.flash).1 in
        ground (arith, open_storage-Working s, set', done, laws.u32_back n o.flash lt set' done)

    increment-Counts :
        (n old : ℕ) (s : Storage nvs)
        → Counts s.flash n
        → suc n < 2 ^ 32
        → let r = increment_boot_failures nvs old s in
          (r.0 ≡ ok) × (r.1 ≡ suc n) × (get_u32 r.2.flash ≡ (ok, suc n))
    unfolding increment_boot_failures
    increment-Counts n old s c lt =
        let g = get_boot_failures-Counts n 0 s c in
        let v = (get_boot_failures nvs 0 s).1 in
        let e : (v + 1) % 2 ^ 32 ≡ suc n = ap (λ k. (k + 1) % 2 ^ 32) g.1 ∙ omega arith in
        let w =
          set_boot_failures-Counts ((v + 1) % 2 ^ 32) (get_boot_failures nvs 0 s).2 (omega arith) in
        ground (arith, g, e, w)

    pub check_boot-pending :
        (n : ℕ) (s : Storage nvs)
        → Counts s.flash n
        → suc n < 2 ^ 32
        → let r = check_boot nvs true s in (r.1 ≡ leb 3 (suc n)) × (get_u32 r.2.flash ≡ (ok, suc n))
    unfolding check_boot
    check_boot-pending n s c lt =
        let i = increment-Counts n 0 s c lt in
        (ground (arith, i, ap (leb 3) i.1), ground (arith, i))

    -- With a storage that works and returns what it stored, an image that stays pending is rolled
    -- back at the boot that makes the count 3 and at every later one, and at none before, from
    -- whatever count it starts, as long as the count has 32 bits.
    pub pending_boots_roll_back :
        (k n : ℕ) (f : Flash) → Counts f n → n + k < 2 ^ 32 → pending_boots k f ≡ rollbacks k n
    unfolding pending_boots
    pending_boots_roll_back zero n f c lt = refl
    pending_boots_roll_back (suc k) n f c lt =
        let s : Storage nvs = record { initialized = false; flash = f } in
        let q = check_boot-pending n s c (omega arith) in
        ap (λ b. b ∷ pending_boots k (check_boot nvs true s).2.flash) q.0
        ∙ ap (◌∷◌ (leb 3 (suc n))) (
            pending_boots_roll_back k (suc n) (check_boot nvs true s).2.flash (inl q.1)
              (omega arith))

    reset-Counts : (s : Storage nvs) → get_u32 (reset_boot_failures nvs s).1.flash ≡ (ok, 0)
    unfolding reset_boot_failures
    reset-Counts s = (set_boot_failures-Counts 0 s (omega arith)).1

    mark_app_ready-flash :
        (cancelled : EspErr) (s : Storage nvs)
        → (mark_app_ready nvs cancelled s).1 ≡ (reset_boot_failures nvs s).1
    unfolding mark_app_ready
    mark_app_ready-flash cancelled s = ground arith

    -- With a storage that works and returns what it stored, an image that has reported that it is
    -- ready, and one that boots when no verification is pending, leave a count from which the
    -- first two pending boots do not roll back and the third does.
    ready_then_third_rolls_back :
        (cancelled : EspErr) (s s' : Storage nvs)
        → (pending_boots 3 (mark_app_ready nvs cancelled s).1.flash ≡ false ∷ false ∷ true ∷ [])
          × (pending_boots 3 (check_boot nvs false s').2.flash ≡ false ∷ false ∷ true ∷ [])
    unfolding check_boot
    ready_then_third_rolls_back cancelled s s' = (
      pending_boots_roll_back 3 0 (mark_app_ready nvs cancelled s).1.flash
          (inl (ap (λ r. get_u32 r.flash) (mark_app_ready-flash cancelled s) ∙ reset-Counts s))
          (omega arith),
      pending_boots_roll_back 3 0 (check_boot nvs false s').2.flash (inl (reset-Counts s'))
          (omega arith),
    )
