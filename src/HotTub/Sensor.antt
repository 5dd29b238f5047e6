-- ===== src/HotTub/Sensor.antt =====
-- components/hot_tub_controller/src/hot_tub_ds18b20.c: opening, reading and releasing the temperature
-- sensor. What the drivers of the bus and of the sensor answer is an argument.
use esp32_s3_hot_tub_base.Base.{
  ◌≡◌, refl, sym, ◌⊎◌, inl, inr, Bool, true, false, List, [], ◌∷◌, Option, none, some,
  if◌then◌else◌, arith,
}
use mathlib.Core.Option.{some-injective}
use esp32_s3_hot_tub_base.Esp.{EspErr, ok, no_mem, is_ok}

-- `s_onewire_bus` and `s_ds18b20` (a handle or NULL), `s_monitor_task_created`
pub record Sensor : Type 0 where
  pub bus : Bool
  pub device : Bool
  pub monitor_created : Bool

-- What the drivers answer in one attempt, for readings of a type `V`.
pub record Attempt (V : Type 0) : Type 0 where
  pub new_bus : EspErr
  pub new_device : EspErr
  pub set_resolution : EspErr
  pub task_created : Bool
  pub trigger : EspErr
  pub read : EspErr
  pub value : V

-- `hot_tub_ds18b20_cleanup`
unfoldable pub sensor_cleanup : Sensor → Sensor
sensor_cleanup s = record s { bus = false; device = false }

-- The end of `hot_tub_ds18b20_init`: the monitoring task.
unfoldable pub start_monitor : Bool → Sensor → EspErr × Sensor
start_monitor task_created s =
    if s.monitor_created
    then (ok, s)
    else (if task_created then (ok, record s { monitor_created = true }) else (no_mem, s))

module _ {V : Type 0} where
  -- `hot_tub_ds18b20_init`
  unfoldable pub sensor_init : Attempt V → Sensor → EspErr × Sensor
  unfolding sensor_cleanup start_monitor
  sensor_init a s =
      if s.device
      then (ok, s)
      else (if is_ok a.new_bus
          then (if is_ok a.new_device
              then (if is_ok a.set_resolution
                  then start_monitor a.task_created (record s { bus = true; device = true })
                  else (a.set_resolution, sensor_cleanup s))
              else (a.new_device, sensor_cleanup s))
          else (a.new_bus, sensor_cleanup s))

  -- The loop of `hot_tub_ds18b20_read_temperature`, over the attempts that are left and the last
  -- error: the code, the reading, and the handles.
  unfoldable pub read_attempts : List (Attempt V) → EspErr → Sensor → EspErr × Option V × Sensor
  unfolding sensor_init sensor_cleanup
  read_attempts [] err s = (err, none, s)
  read_attempts (a ∷ as_) err s =
      let (init_err, s1) = sensor_init a s in
      let read_err = if is_ok a.trigger then a.read else a.trigger in
      let after_init = read_attempts as_ init_err s1 in
      let after_read = read_attempts as_ read_err (sensor_cleanup s1) in
      if is_ok init_err
      then (if is_ok read_err then (ok, some a.value, s1) else after_read)
      else after_init

  -- `hot_tub_ds18b20_read_temperature`, of a pointer that is not NULL: at most two attempts.
  unfoldable pub read_temperature : Attempt V → Attempt V → Sensor → EspErr × Option V × Sensor
  unfolding read_attempts
  read_temperature a b s = read_attempts (a ∷ b ∷ []) ok s

  sensor_init-fails :
      (a : Attempt V) (s : Sensor)
      → s.monitor_created ≡ true
      → let r = sensor_init a s in
        (r.1.monitor_created ≡ true)
        × ((is_ok r.0 ≡ false) → (r.1.device ≡ false) × (r.1.bus ≡ false))
  unfolding sensor_init start_monitor sensor_cleanup
  sensor_init-fails a s m = ground arith

  read_attempts-releases :
      (as_ : List (Attempt V)) (err : EspErr) (s : Sensor)
      → s.monitor_created ≡ true
      → s.device ≡ false
      → s.bus ≡ false
      → (read_attempts as_ err s).1 ≡ none
      → let r = (read_attempts as_ err s).2 in (r.device ≡ false) × (r.bus ≡ false)
  unfolding read_attempts sensor_cleanup
  read_attempts-releases [] err s m d b n = (d, b)
  read_attempts-releases (a ∷ as_) err s m d b n =
      let s1 : Sensor = (sensor_init a s).1 in
      let e = (sensor_init a s).0 in
      let read_err = if is_ok a.trigger then a.read else a.trigger in
      ground (
        arith,
        sensor_init-fails a s m,
        read_attempts-releases as_ e s1,
        read_attempts-releases as_ read_err (sensor_cleanup s1),
      )

  -- The value is one that an attempt read without an error.
  abbrev pub WasRead : List (Attempt V) → V → Type 0
  WasRead [] v = ⊥
  WasRead (a ∷ as_) v = ((a.trigger ≡ ok) × (a.read ≡ ok) × (v ≡ a.value)) ⊎ WasRead as_ v

  branches :
      (Q : Type 0) (v : V) (c : Bool) (x y : EspErr × Option V × Sensor)
      → (c ≡ true → x.1 ≡ some v → Q)
      → (c ≡ false → y.1 ≡ some v → Q)
      → (if c then x else y).1 ≡ some v
      → Q
  branches Q v true x y p q e = p refl e
  branches Q v false x y p q e = q refl e

  read_attempts-WasRead :
      (as_ : List (Attempt V)) (err : EspErr) (s : Sensor) (v : V)
      → (read_attempts as_ err s).1 ≡ some v
      → WasRead as_ v
  unfolding read_attempts
  read_attempts-WasRead [] err s v e = absurd (ground (arith, e))
  read_attempts-WasRead (a ∷ as_) err s v e =
      let s1 : Sensor = (sensor_init a s).1 in
      let init_err = (sensor_init a s).0 in
      let read_err = if is_ok a.trigger then a.read else a.trigger in
      branches (WasRead (a ∷ as_) v) v (is_ok init_err) _ _
        (λ i.
          branches (WasRead (a ∷ as_) v) v (is_ok read_err) (ok, some a.value, s1) _
            (λ r q. inl (ground arith, ground arith, some-injective v a.value (sym q)))
            (λ r q. inr (read_attempts-WasRead as_ read_err (sensor_cleanup s1) v q)))
        (λ i q. inr (read_attempts-WasRead as_ init_err s1 v q)) e

  pub read_temperature-WasRead :
      (a b : Attempt V) (s : Sensor) (v : V)
      → (read_temperature a b s).1 ≡ some v
      → WasRead (a ∷ b ∷ []) v
  unfolding read_temperature
  read_temperature-WasRead a b s v e = read_attempts-WasRead (a ∷ b ∷ []) ok s v e

  -- The sensor was set up once, after a reading.
  abbrev WasSetUp : EspErr × Option V × Sensor → Type 0
  WasSetUp r = r.2.monitor_created ≡ true

  WasSetUp-if :
      (c : Bool) (x y : EspErr × Option V × Sensor)
      → WasSetUp x
      → WasSetUp y
      → WasSetUp (if c then x else y)
  WasSetUp-if true x y p q = p
  WasSetUp-if false x y p q = q

  read_attempts-WasSetUp :
      (as_ : List (Attempt V)) (err : EspErr) (s : Sensor)
      → s.monitor_created ≡ true
      → WasSetUp (read_attempts as_ err s)
  unfolding read_attempts sensor_cleanup
  read_attempts-WasSetUp [] err s m = m
  read_attempts-WasSetUp (a ∷ as_) err s m =
      let s1 : Sensor = (sensor_init a s).1 in
      let e = (sensor_init a s).0 in
      let m1 = (sensor_init-fails a s m).0 in
      let read_err = if is_ok a.trigger then a.read else a.trigger in
      WasSetUp-if (is_ok e) _ _
        (WasSetUp-if (is_ok read_err) (ok, some a.value, s1) _ m1
          (read_attempts-WasSetUp as_ read_err (sensor_cleanup s1) m1))
        (read_attempts-WasSetUp as_ e s1 m1)

  pub read_temperature-WasSetUp :
      (a b : Attempt V) (s : Sensor) → s.monitor_created ≡ true → WasSetUp (read_temperature a b s)
  unfolding read_temperature
  read_temperature-WasSetUp a b s m = read_attempts-WasSetUp (a ∷ b ∷ []) ok s m

  -- In the monitoring task, a reading that fails leaves no handle of the sensor or of its bus behind,
  -- whatever the drivers answer and whatever handles there were, so the next reading starts afresh.
  pub failed_read_releases :
      (a b : Attempt V) (s : Sensor)
      → s.monitor_created ≡ true
      → (read_temperature a b s).1 ≡ none
      → let r = (read_temperature a b s).2 in (r.device ≡ false) × (r.bus ≡ false)
  unfolding read_temperature read_attempts sensor_cleanup
  failed_read_releases a b s m n =
      let s1 : Sensor = (sensor_init a s).1 in
      let e = (sensor_init a s).0 in
      let read_err = if is_ok a.trigger then a.read else a.trigger in
      ground (
        arith,
        sensor_init-fails a s m,
        read_attempts-releases (b ∷ []) e s1,
        read_attempts-releases (b ∷ []) read_err (sensor_cleanup s1),
      )
