-- ===== src/HotTub/Progress.antt =====
-- A request for heat is served: the pump runs for the pre-run time, then the heater goes on.
use esp32_s3_hot_tub_base.Base.{
  sym, subst, get_elem?, ◌≡◌, refl, ◌≢◌, ℕ, zero, suc, Bool, true, false, List, [], ◌∷◌, length,
  All, some, take, arith,
}
use esp32_s3_hot_tub_base.Base.Int.{pos}
use esp32_s3_hot_tub_base.Float.Ops.{FloatOps}
use esp32_s3_hot_tub_base.HotTub.State.{HotTub, pump_off, pump_low}
use esp32_s3_hot_tub_base.HotTub.Settings.{verified_run_time}
use esp32_s3_hot_tub_base.HotTub.Control.{
  Loop, Round, before_control, auto_decide, auto_control, after_control, verify, filter_temperature,
  needs_heat, heat_satisfied, control_round, run_rounds,
}
use esp32_s3_hot_tub_base.HotTub.Stages.{filter-keeps, verify-keeps, after_control-heater}
use esp32_s3_hot_tub_base.HotTub.Heating.{tested}
use esp32_s3_hot_tub_base.HotTub.Manual.{before_control-running, heater_stop_undone}

module _ (fl : FloatOps) where
  open fl use {Float, to_int}

  -- The loop's variables while the pump that the task started runs ahead for k more seconds.
  abbrev pub waiting : ℕ → Loop
  waiting k = record {
    auto_started_pump = true;
    was_heating = false;
    heat_lockout = false;
    pre_pump_timer = pos k;
    post_pump_timer = pos 0;
  }

  -- The loop's variables with nothing going on.
  abbrev pub at_rest : Loop
  at_rest = record {
    auto_started_pump = false;
    was_heating = false;
    heat_lockout = false;
    pre_pump_timer = pos 0;
    post_pump_timer = pos 0;
  }

  auto_decide-waits :
      (satisfied : Bool) (k : ℕ) (h : HotTub Float)
      → h.heater_on ≡ false
      → auto_decide fl true satisfied (record { loop = waiting (suc k); snap = h })
        ≡ record { loop = waiting (suc k); snap = h }
  unfolding auto_decide
  auto_decide-waits satisfied k h off = ground arith

  auto_control-waits :
      (k : ℕ) (h : HotTub Float)
      → h.heater_on ≡ false
      → h.auto_mode ≡ true
      → needs_heat fl (verify fl h) ≡ true
      → auto_control fl (record { loop = waiting (suc k); snap = h })
        ≡ record { loop = waiting (suc k); snap = verify fl h }
  unfolding auto_control
  auto_control-waits k h off auto cold = ground (
    arith,
    verify-keeps fl h,
    auto_decide-waits (heat_satisfied fl (verify fl h)) k (verify fl h),
  )

  after_control-waits :
      (k : ℕ) (h : HotTub Float)
      → h.heater_on ≡ false
      → (after_control fl (record { loop = waiting (suc k); snap = h })).loop ≡ waiting (suc k)
  unfolding after_control
  after_control-waits k h off = ground arith

  -- A snapshot as the loop left it during the pre-run, still asking for heat.
  abbrev pub AsksForHeat : HotTub Float → Type 0
  AsksForHeat h =
      (h.heater_on ≡ false)
      × (h.auto_mode ≡ true)
      × (needs_heat fl (tested fl h) ≡ true)
      × (h.pump_state ≢ pump_off)

  waiting_round :
      (k : ℕ) (h : HotTub Float)
      → AsksForHeat h
      → let q = control_round fl (waiting (suc (suc k))) h in
        (q.loop ≡ waiting (suc k)) × (q.snap.heater_on ≡ false)
  unfolding control_round
  waiting_round k h asks =
      let f : HotTub Float = filter_temperature fl h in
      let b = before_control-running fl (waiting (suc (suc k))) h asks.3 in
      let r : Round Float = record { loop = waiting (suc k); snap = verify fl f } in
      ground (
        arith,
        b,
        filter-keeps fl h,
        verify-keeps fl f,
        auto_control-waits k f,
        after_control-waits k (verify fl f),
        after_control-heater fl r,
      )

  -- The heater is on in the snapshot that round n writes.
  abbrev pub HeatsAt : ℕ → List (HotTub Float) → Type 0
  HeatsAt n out = (h : HotTub Float) × (get_elem? out n ≡ some h) × (h.heater_on ≡ true)

  -- The heater is on in the snapshot that round n writes, and off in all that were written before it.
  abbrev pub HeatsFirstAt : ℕ → List (HotTub Float) → Type 0
  HeatsFirstAt n out = All (λ h. h.heater_on ≡ false) (take n out) × HeatsAt n out

  heats_after_wait :
      (k : ℕ) (hs : List (HotTub Float))
      → length hs ≡ suc k
      → All AsksForHeat hs
      → HeatsFirstAt k (run_rounds fl (waiting (suc k)) hs).1
  unfolding run_rounds
  heats_after_wait k [] len asks = absurd (omega arith)
  heats_after_wait zero (h ∷ hs) len asks = (
    tt,
    (
      (control_round fl (waiting 1) h).snap,
      refl,
      heater_stop_undone fl (waiting 1) h asks.0.0 asks.0.1 asks.0.2 asks.0.3 refl refl refl refl,
    ),
  )
  heats_after_wait (suc k) (h ∷ hs) len asks =
      let q = waiting_round k h asks.0 in
      let later =
        subst (λ l. HeatsFirstAt k (run_rounds fl l hs).1) (sym q.0)
          (heats_after_wait k hs (omega arith) asks.1) in
      ((q.1, later.0), later.1)

  auto_decide-arms :
      (satisfied : Bool) (r : Round Float)
      → r.loop ≡ at_rest
      → r.snap.heater_on ≡ false
      → r.snap.pump_state ≡ pump_off
      → auto_decide fl true satisfied r ≡ record {
        loop = record at_rest {
          auto_started_pump = true;
          pre_pump_timer = to_int r.snap.pump_pre_run_time;
        };
        snap = record (r.snap) { pump_state = pump_low };
      }
  unfolding auto_decide
  auto_decide-arms satisfied r rest off stopped = ground arith

  before_control-rest :
      (h : HotTub Float)
      → h.heater_on ≡ false
      → before_control fl at_rest h ≡ record { loop = at_rest; snap = filter_temperature fl h }
  unfolding before_control
  before_control-rest h off = ground arith

  auto_control-arms :
      (k : ℕ) (h : HotTub Float)
      → h.heater_on ≡ false
      → h.pump_state ≡ pump_off
      → h.auto_mode ≡ true
      → needs_heat fl (verify fl h) ≡ true
      → to_int (verified_run_time fl h.pump_pre_run_time) ≡ pos (suc k)
      → auto_control fl (record { loop = at_rest; snap = h })
        ≡ record { loop = waiting (suc k); snap = record (verify fl h) { pump_state = pump_low } }
  unfolding auto_control
  auto_control-arms k h off stopped auto cold time = ground (
    arith,
    verify-keeps fl h,
    auto_decide-arms (heat_satisfied fl (verify fl h))
        (record { loop = at_rest; snap = verify fl h }),
  )

  starting_round :
      (k : ℕ) (h : HotTub Float)
      → h.heater_on ≡ false
      → h.pump_state ≡ pump_off
      → h.auto_mode ≡ true
      → needs_heat fl (tested fl h) ≡ true
      → to_int (verified_run_time fl h.pump_pre_run_time) ≡ pos (suc k)
      → let q = control_round fl at_rest h in
        (q.loop ≡ waiting (suc k)) × (q.snap.heater_on ≡ false)
  unfolding control_round
  starting_round k h off stopped auto cold time =
      let f : HotTub Float = filter_temperature fl h in
      let armed : HotTub Float = record (verify fl f) { pump_state = pump_low } in
      let r : Round Float = record { loop = waiting (suc k); snap = armed } in
      ground (
        arith,
        before_control-rest h off,
        filter-keeps fl h,
        verify-keeps fl f,
        auto_control-arms k f,
        after_control-waits k armed,
        after_control-heater fl r,
      )

  -- From rest with the heater and the pump off, in auto mode and asking for heat, the heater is off
  -- in the snapshots that the first round and the next ones write, and on in the one that comes the
  -- pre-run time (in whole seconds, after the check, at least one) after the first, if the rounds
  -- after the first are as many as these seconds and each reads the heater off, the pump not off, auto
  -- mode on and heat still asked for.
  pub heat_request_served :
      (k : ℕ) (h : HotTub Float) (hs : List (HotTub Float))
      → h.heater_on ≡ false
      → h.pump_state ≡ pump_off
      → h.auto_mode ≡ true
      → needs_heat fl (tested fl h) ≡ true
      → to_int (verified_run_time fl h.pump_pre_run_time) ≡ pos (suc k)
      → length hs ≡ suc k
      → All AsksForHeat hs
      → HeatsFirstAt (suc k) (run_rounds fl at_rest (h ∷ hs)).1
  unfolding run_rounds
  heat_request_served k h hs off stopped auto cold time len asks =
      let q = starting_round k h off stopped auto cold time in
      let later =
        subst (λ l. HeatsFirstAt k (run_rounds fl l hs).1) (sym q.0)
          (heats_after_wait k hs len asks) in
      ((q.1, later.0), later.1)
