-- ===== src/HotTub/PersistenceTests.antt =====
-- Saving and loading of the settings with a storage in memory.
use esp32_s3_hot_tub_base.Base.{◌≡◌, refl, true, Option, none, some}
use esp32_s3_hot_tub_base.Esp.{ok, nvs_not_found}
use esp32_s3_hot_tub_base.Float.Fixed.{Fixed, fixed, literal}
use esp32_s3_hot_tub_base.HotTub.State.{HotTub}
use esp32_s3_hot_tub_base.HotTub.Persist.{
  NvsDriver, NvsLaws, settings_save, settings_load, snapshot_get, take_state_lock,
}
use esp32_s3_hot_tub_base.HotTub.StructIo.{set_setpoint_temp}
use esp32_s3_hot_tub_base.HotTub.Control.{control_round, persist_round}
use esp32_s3_hot_tub_base.HotTub.Tests.{cold_tub, heating, heating_loop, tub}
use esp32_s3_hot_tub_base.HotTub.Persistence.{settings_round_trip, setpoint_update_lost}

abbrev memory : NvsDriver (HotTub Fixed)
memory = record {
  Flash = Option (HotTub Fixed);
  flash_init = λ f. (ok, f);
  open_writable = λ f. (ok, f);
  open_readonly = λ f. (ok, f);
  set_blob = λ b f. (ok, some b);
  commit = λ f. (ok, f);
  get_blob = λ f. elim f [ none ↦ (nvs_not_found, cold_tub) | some b ↦ (ok, b) ];
}

memory_laws : NvsLaws memory
memory_laws = record { read_back = λ b f s c o. refl }

settings_round_trip_example :
    (settings_load memory true
      (tub cold_tub)
      (settings_save memory true cold_tub (tub heating) none).1).0.ctl
    ≡ heating
unfolding settings_save snapshot_get take_state_lock
settings_round_trip_example =
    (settings_round_trip memory memory_laws true cold_tub (tub heating) (tub cold_tub) none refl
      refl refl).0

setpoint_update_lost_example :
    (persist_round fixed true
      (control_round fixed heating_loop heating).snap
      (set_setpoint_temp (literal 40 0) (tub heating))).ctl.setpoint_temp
    ≡ literal 36 0
setpoint_update_lost_example =
    setpoint_update_lost fixed heating_loop (tub heating) (literal 40 0) refl
