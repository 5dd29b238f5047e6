-- ===== src/Ota/Tests.antt =====
-- The boot check on a storage in memory.
use esp32_s3_hot_tub_base.Base.{◌≡◌, refl, inr, true, false, [], ◌∷◌, arith}
use esp32_s3_hot_tub_base.Storage.Memory.{memory, memory_laws, blank}
use esp32_s3_hot_tub_base.Ota.Rollback.{Working, pending_boots, pending_boots_roll_back}

pub memory_works : Working memory
memory_works = record {
  init_ok = λ f. refl;
  init_keeps = λ f. refl;
  open_ok = λ f. refl;
  open_keeps = λ f. refl;
  set_ok = λ n f. refl;
  commit_ok = λ f. refl;
}

pending_boots_roll_back_example : pending_boots memory 4 blank ≡ false ∷ false ∷ true ∷ true ∷ []
pending_boots_roll_back_example =
    pending_boots_roll_back memory memory_works memory_laws 4 0 blank (inr (refl, refl))
      (omega arith)
