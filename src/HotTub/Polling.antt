-- ===== src/HotTub/Polling.antt =====
-- The handles and the shared state in the rounds of the monitoring task.
use esp32_s3_hot_tub_base.Base.{
  ◌^◌, ◌<◌, ◌≡◌, refl, ◌⊎◌, inl, inr, Bool, true, false, ◌||◌, List, [], ◌∷◌, Option, none, some,
  ltb, if◌then◌else◌, Bool-cases, arith,
}
use esp32_s3_hot_tub_base.Float.Ops.{FloatOps}
use esp32_s3_hot_tub_base.HotTub.Persist.{System}
use esp32_s3_hot_tub_base.HotTub.Sensor.{
  Sensor, sensor_cleanup, read_temperature, failed_read_releases, read_temperature-WasSetUp,
  WasRead, read_temperature-WasRead,
}
use esp32_s3_hot_tub_base.HotTub.Monitor.{
  MonitorRun, Monitor, started, pause_round, to_tenths, store_reading, read_round, monitor_round,
  run_monitor,
}

module _ (fl : FloatOps) where
  -- No handle is held by a task that is paused or whose last reading failed, the sensor was set up
  -- once, and the count of failures is one of 32 bits.
  pub record IsReleased (m : Monitor) : Type 0 where
    pub created : m.sensor.monitor_created ≡ true
    pub bus : m.paused_for_ota || ltb 0 m.read_failures ≡ true → m.sensor.bus ≡ false
    pub device : m.paused_for_ota || ltb 0 m.read_failures ≡ true → m.sensor.device ≡ false
    pub count : m.read_failures < 2 ^ 32

  IsReleased-if :
      (c : Bool) (m n : Monitor) → IsReleased m → IsReleased n → IsReleased (if c then m else n)
  IsReleased-if true m n p q = p
  IsReleased-if false m n p q = q

  pause_round-IsReleased : (m : Monitor) → IsReleased m → IsReleased (pause_round m)
  unfolding pause_round sensor_cleanup
  pause_round-IsReleased m i =
      let paused : Monitor = record m { sensor = sensor_cleanup m.sensor; paused_for_ota = true } in
      IsReleased-if m.paused_for_ota m paused i
        (record { created = i.created; bus = λ h. refl; device = λ h. refl; count = i.count })

  store_reading-IsReleased :
      (o : Option fl.Float) (sensor : Sensor) (s : System fl.Float) (m : Monitor)
      → IsReleased m
      → sensor.monitor_created ≡ true
      → (o ≡ none → (sensor.device ≡ false) × (sensor.bus ≡ false))
      → IsReleased (store_reading fl o sensor s m).1
  unfolding store_reading
  store_reading-IsReleased none sensor s m i c f =
      let n = i.count in
      record { created = c; bus = λ h. (f refl).1; device = λ h. (f refl).0; count = ground arith }
  store_reading-IsReleased (some t) sensor s m i c f = record {
    created = c;
    bus = λ h. absurd (ground arith);
    device = λ h. absurd (ground arith);
    count = omega arith;
  }

  monitor_round-IsReleased :
      (r : MonitorRun fl.Float) (s : System fl.Float) (m : Monitor)
      → IsReleased m
      → IsReleased (monitor_round fl r s m).1
  unfolding monitor_round read_round
  monitor_round-IsReleased r s m i =
      let e = read_temperature r.first r.second m.sensor in
      let read =
        store_reading-IsReleased e.1 e.2 s m i
          (read_temperature-WasSetUp r.first r.second m.sensor i.created)
          (failed_read_releases r.first r.second m.sensor i.created) in
      elim (Bool-cases r.update_in_progress) [
        | inl u ↦ rw u (pause_round-IsReleased m i)
        | inr u ↦ rw u read
      ]

  run_monitor-IsReleased :
      (l : List (System fl.Float × MonitorRun fl.Float)) (m : Monitor)
      → IsReleased m
      → IsReleased (run_monitor fl l m)
  unfolding run_monitor
  run_monitor-IsReleased [] m i = i
  run_monitor-IsReleased ((s, r) ∷ rest) m i =
      run_monitor-IsReleased rest (monitor_round fl r s m).1 (monitor_round-IsReleased r s m i)

  -- What a round leaves: the shared state is as it was, and no handle of the sensor or of its bus is
  -- held; or its water temperature is one that an attempt of the round read without an error, rounded
  -- to tenths, and no update is in progress.
  abbrev pub IsSoundRound :
      MonitorRun fl.Float → System fl.Float → System fl.Float × Monitor × Bool → Type 0
  IsSoundRound r s (s', m', logged) =
      ((s' ≡ s) × (m'.sensor.device ≡ false) × (m'.sensor.bus ≡ false))
      ⊎ ((t : fl.Float) × WasRead (r.first ∷ r.second ∷ []) t
          × (s' ≡ record s { ctl = record (s.ctl) { water_temp = to_tenths fl t } })
          × (m'.read_failures ≡ 0)
          × (r.update_in_progress ≡ false))

  pause_round-paused : (m : Monitor) → (pause_round m).paused_for_ota ≡ true
  unfolding pause_round
  pause_round-paused m = ground arith

  store_reading-IsSoundRound :
      (o : Option fl.Float) (sensor : Sensor) (r : MonitorRun fl.Float) (s : System fl.Float)
      (m : Monitor)
      → r.update_in_progress ≡ false
      → (o ≡ none → (sensor.device ≡ false) × (sensor.bus ≡ false))
      → ((t : fl.Float) → o ≡ some t → WasRead (r.first ∷ r.second ∷ []) t)
      → IsSoundRound r s (store_reading fl o sensor s m)
  unfolding store_reading
  store_reading-IsSoundRound none sensor r s m u f v = inl (refl, (f refl).0, (f refl).1)
  store_reading-IsSoundRound (some t) sensor r s m u f v = inr (t, v t refl, refl, refl, u)

  read_round-IsSoundRound :
      (r : MonitorRun fl.Float) (s : System fl.Float) (m : Monitor)
      → IsReleased m
      → r.update_in_progress ≡ false
      → IsSoundRound r s (read_round fl r s m)
  unfolding read_round
  read_round-IsSoundRound r s m i u =
      let e = read_temperature r.first r.second m.sensor in
      store_reading-IsSoundRound e.1 e.2 r s m u
        (failed_read_releases r.first r.second m.sensor i.created)
        (read_temperature-WasRead r.first r.second m.sensor)

  IsSoundRound-if :
      (c : Bool) (r : MonitorRun fl.Float) (s : System fl.Float)
      (x y : System fl.Float × Monitor × Bool)
      → IsSoundRound r s x
      → (c ≡ false → IsSoundRound r s y)
      → IsSoundRound r s (if c then x else y)
  IsSoundRound-if true r s x y p q = p
  IsSoundRound-if false r s x y p q = q refl

  -- The monitoring task, from a start after the sensor was set up, on any rounds and whatever the
  -- drivers answer: a round leaves the shared state as it was and holds no handle of the sensor or of
  -- its bus, as every round during an update does; or it stores the value that one of its two attempts
  -- read without an error, rounded to tenths, as the water temperature, changes nothing else, and no
  -- update is in progress.
  pub run_monitor-IsSoundRound :
      (l : List (System fl.Float × MonitorRun fl.Float)) (sensor : Sensor) (r : MonitorRun fl.Float)
      (s : System fl.Float)
      → sensor.monitor_created ≡ true
      → IsSoundRound r s (monitor_round fl r s (run_monitor fl l (started sensor)))
  unfolding monitor_round
  run_monitor-IsSoundRound l sensor r s c =
      let m = run_monitor fl l (started sensor) in
      let i = run_monitor-IsReleased l (started sensor) (record {
        created = c;
        bus = λ h. absurd (ground arith);
        device = λ h. absurd (ground arith);
        count = omega arith;
      }) in
      let p = pause_round-IsReleased m i in
      let held = pause_round-paused m in
      IsSoundRound-if r.update_in_progress r s (s, pause_round m, false) (read_round fl r s m)
        (inl (refl, p.device (ground arith), p.bus (ground arith)))
        (read_round-IsSoundRound r s m i)
