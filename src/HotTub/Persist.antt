-- ===== src/HotTub/Persist.antt =====
-- components/hot_tub_controller/src/hot_tub_controller_nvs.c, and the lock and the snapshots of
-- hot_tub_struct_io.c. A critical section is one step; whether a timed `xSemaphoreTake` succeeds is
-- an argument, since it depends on the other tasks.
use esp32_s3_hot_tub_base.Base.{ℕ, zero, suc, ◌≡◌, Bool, Option, none, some, if◌then◌else◌}
use esp32_s3_hot_tub_base.Esp.{EspErr, ok, no_mem, invalid_state, timeout, is_ok}
use esp32_s3_hot_tub_base.HotTub.State.{HotTub}

-- `s_mutex` (created or NULL), `hottub_ctl`, and `s_persistence_queue` with its pending
-- notifications (at most the one it has room for).
pub record System (F : Type 0) : Type 0 where
  pub mutex : Bool
  pub ctl : HotTub F
  pub queue : Option ℕ

module _ {F : Type 0} where
  -- `take_state_lock`, by what the semaphore answers within its time.
  unfoldable pub take_state_lock : Bool → System F → EspErr
  take_state_lock taken s = if s.mutex then (if taken then ok else timeout) else invalid_state

  -- The snapshot is read only if the result is `ok`; a caller's buffer keeps its value otherwise.
  unfoldable pub snapshot_get : Bool → HotTub F → System F → EspErr × HotTub F
  unfolding take_state_lock
  snapshot_get taken buffer s =
      let err = take_state_lock taken s in (err, if is_ok err then s.ctl else buffer)

  unfoldable pub snapshot_set : Bool → HotTub F → System F → System F × EspErr
  unfolding take_state_lock
  snapshot_set taken state s =
      let err = take_state_lock taken s in (if is_ok err then record s { ctl = state } else s, err)

  -- `hot_tub_controller_persistence_init`, by whether the queue and the task were created.
  unfoldable pub persistence_init : Bool → Bool → System F → System F × EspErr
  persistence_init queue_created task_created s = elim s.queue [
    | some n ↦ (s, ok)
    | none ↦
        if queue_created
        then (if task_created
            then (record s { queue = some 0 }, ok)
            else (record s { queue = none }, no_mem))
        else (s, no_mem)
  ]

  -- `hot_tub_controller_persistence_mark_dirty`: a full queue already stands for the change.
  unfoldable pub mark_dirty : System F → System F × EspErr
  mark_dirty s = elim s.queue [
    | none ↦ (s, invalid_state)
    | some zero ↦ (record s { queue = some 1 }, ok)
    | some (suc n) ↦ (s, ok)
  ]

  -- `hot_tub_struct_io_save_settings_to_nvs`
  unfoldable pub save_settings : System F → System F × EspErr
  unfolding mark_dirty
  save_settings s = mark_dirty s

  -- The start of a round of `persistence_task`: it waits while nothing is pending, then takes the
  -- notification and drains the rest. What follows after the debounce delay is `settings_save`.
  unfoldable pub persistence_wake : System F → Option (System F)
  persistence_wake s = elim s.queue [
    | none ↦ none
    | some zero ↦ none
    | some (suc n) ↦ some (record s { queue = some 0 })
  ]

-- The non-volatile storage of ESP-IDF, for the one blob `settings` of the namespace
-- `hottub_settings`. A call returns its code and the flash after it; a read also the buffer.
pub record NvsDriver (Blob : Type 0) : Type 1 where
  pub Flash : Type 0
  pub flash_init : Flash → EspErr × Flash
  pub open_writable : Flash → EspErr × Flash
  pub open_readonly : Flash → EspErr × Flash
  pub set_blob : Blob → Flash → EspErr × Flash
  pub commit : Flash → EspErr × Flash
  pub get_blob : Flash → EspErr × Blob

-- What was written and committed is what a later open and read returns.
pub record NvsLaws {Blob : Type 0} (nvs : NvsDriver Blob) : Type 0 where
  pub read_back :
      (b : Blob) (f : nvs.Flash)
      → (nvs.set_blob b f).0 ≡ ok
      → (nvs.commit (nvs.set_blob b f).1).0 ≡ ok
      → let written = (nvs.commit (nvs.set_blob b f).1).1 in
        (nvs.open_readonly written).0 ≡ ok → nvs.get_blob (nvs.open_readonly written).1 ≡ (ok, b)

module _ {F : Type 0} (nvs : NvsDriver (HotTub F)) where
  open nvs use {Flash, open_writable, open_readonly, set_blob, commit, get_blob}

  -- `hot_tub_controller_settings_save_to_nvs`; `zero_state` is the zeroed local buffer.
  unfoldable pub settings_save : Bool → HotTub F → System F → Flash → EspErr × Flash
  unfolding snapshot_get
  settings_save taken zero_state s f =
      let (err, current) = snapshot_get taken zero_state s in
      if is_ok err
      then (let (err', f') = open_writable f in
          if is_ok err'
          then (let (err'', f'') = set_blob current f' in
              if is_ok err'' then commit f'' else (err'', f''))
          else (err', f'))
      else (err, f)

  -- `hot_tub_controller_settings_load_from_nvs`
  unfoldable pub settings_load : Bool → System F → Flash → System F × EspErr × Flash
  unfolding snapshot_set
  settings_load taken s f =
      let (err, f') = open_readonly f in
      if is_ok err
      then (let (err', stored) = get_blob f' in
          if is_ok err'
          then (let (s', err'') = snapshot_set taken stored s in (s', err'', f'))
          else (s, err', f'))
      else (s, err, f')
