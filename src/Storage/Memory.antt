-- ===== src/Storage/Memory.antt =====
-- An instance of the non-volatile storage that runs: the two entries in memory.
use esp32_s3_hot_tub_base.Base.{ℕ, refl, List, [], Option, none, some, length}
use esp32_s3_hot_tub_base.Esp.{EspErr, ok, nvs_not_found}
use esp32_s3_hot_tub_base.Storage.Driver.{NvsStore, NvsStoreLaws, NvsReopens}

pub record Entries : Type 0 where
  pub counter : Option ℕ
  pub blob : Option (List ℕ)

abbrev pub blank : Entries
blank = record { counter = none; blob = none }

abbrev read {ℓ} : {A : Type ℓ} → A → Option A → EspErr × A
read default none = (nvs_not_found, default)
read default (some a) = (ok, a)

abbrev pub memory : NvsStore
memory = record {
  Flash = Entries;
  flash_init = λ f. (ok, f);
  flash_erase = λ f. blank;
  nvs_open = λ f. (ok, f);
  blob_size = λ f. elim f.blob [ none ↦ (nvs_not_found, 0) | some b ↦ (ok, length b) ];
  get_blob = λ f. read [] f.blob;
  set_blob = λ b f. (ok, record f { blob = some b });
  get_u32 = λ f. read 0 f.counter;
  set_u32 = λ n f. (ok, record f { counter = some n });
  commit = λ f. (ok, f);
}

pub memory_laws : NvsStoreLaws memory
memory_laws = record { blob_back = λ b f s c. (refl, refl); u32_back = λ n f lt s c. refl }

pub memory_reopens : NvsReopens memory
memory_reopens = record {
  init_ok = λ f. refl;
  init_size = λ f. refl;
  init_blob = λ f. refl;
  open_ok = λ f. refl;
  open_size = λ f. refl;
  open_blob = λ f. refl;
}
