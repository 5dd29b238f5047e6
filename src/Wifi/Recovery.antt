-- ===== src/Wifi/Recovery.antt =====
-- The rounds of the worker from a start without a network to the recovery access point.
use esp32_s3_hot_tub_base.Base.{
  ℕ, suc, ◌+◌, ◌≡◌, ◌≤◌, ◌<◌, refl, ◌∙◌, inl, inr, sym, subst, Bool, true, false, List, [], ◌∷◌,
  some, All, leb, length, Bool-cases, arith,
}
use esp32_s3_hot_tub_base.Esp.{ok}
use esp32_s3_hot_tub_base.Storage.Driver.{NvsStore, Storage}
use esp32_s3_hot_tub_base.Wifi.State.{Credentials, Wifi, connect_sta, enter_fallback}
use esp32_s3_hot_tub_base.Wifi.Events.{wifi_event_handler, sta_start}
use esp32_s3_hot_tub_base.Wifi.Attempts.{enter_ap_fallback, process_sta_attempt}
use esp32_s3_hot_tub_base.Wifi.Start.{StartRun, starts, wifi_start}
use esp32_s3_hot_tub_base.Wifi.Steps.{WorkRun, run_work}
use esp32_s3_hot_tub_base.Wifi.Exhaust.{
  Fails, Trying, Recovering, schedule-Trying, attempt-Trying, fallback-Recovering, started-Idle,
}

-- While attempts are left, the next one is waiting; after the last, the access point serves.
abbrev pub Stage : Bool → ℕ → Wifi → Type 0
Stage true n w = Trying n w
Stage false n w = Recovering w

module _ (nvs : NvsStore) where
  -- The rounds of the worker, as long as it has work.
  unfoldable pub work_off : List WorkRun → Wifi × Storage nvs → Wifi × Storage nvs
  unfolding run_work
  work_off [] x = x
  work_off (r ∷ rs) (w, s) = elim w.queue [
    | [] ↦ (w, s)
    | item ∷ rest ↦
        let e = run_work nvs r item (record w { queue = rest }, s) in work_off rs (e.0, e.1)
  ]

  work_off-connect :
      (r : WorkRun) (rs : List WorkRun) (w : Wifi) (s : Storage nvs)
      → w.queue ≡ connect_sta ∷ []
      → work_off (r ∷ rs) (w, s)
        ≡ work_off rs (process_sta_attempt r.connect r.acts r.room (record w { queue = [] }), s)
  unfolding work_off run_work
  work_off-connect r rs w s e = rw e refl

  work_off-fallback :
      (r : WorkRun) (rs : List WorkRun) (w : Wifi) (s : Storage nvs)
      → w.queue ≡ enter_fallback ∷ []
      → work_off (r ∷ rs) (w, s)
        ≡ work_off rs
            (enter_ap_fallback r.set_mode r.start r.acts r.ap_ip (record w { queue = [] }), s)
  unfolding work_off run_work
  work_off-fallback r rs w s e = rw e refl

  work_off-idle :
      (rs : List WorkRun) (w : Wifi) (s : Storage nvs) → w.queue ≡ [] → work_off rs (w, s) ≡ (w, s)
  unfolding work_off
  work_off-idle [] w s e = refl
  work_off-idle (r ∷ rs) w s e = ground arith

  work_off-Stage :
      (rs : List WorkRun) (n : ℕ) (w : Wifi) (s : Storage nvs)
      → All Fails rs
      → n ≤ 5
      → Trying n w
      → Stage (leb (n + length rs) 5) (n + length rs) (work_off rs (w, s)).0
  unfolding work_off
  work_off-Stage [] n w s f le t =
      let e : leb (n + 0) 5 ≡ true = ground arith in
      let z : n + 0 ≡ n = omega arith in
      subst (λ b. Stage b (n + 0) w) (sym e) (subst (λ m. Trying m w) (sym z) t)
  work_off-Stage (r ∷ rs) n w s f le t = elim (Bool-cases (leb 5 n)) [
    | inr e ↦
        let lt : n < 5 = ground arith in
        let q : w.queue ≡ connect_sta ∷ [] = ground arith in
        let z : suc n + length rs ≡ n + suc (length rs) = omega arith in
        let rest =
          work_off-Stage rs (suc n)
            (process_sta_attempt r.connect r.acts r.room (record w { queue = [] })) s f.1
            (omega arith) (attempt-Trying n r w lt f.0 t) in
        subst (λ x. Stage (leb (n + suc (length rs)) 5) (n + suc (length rs)) x.0)
          (sym (work_off-connect r rs w s q))
          (subst
            (λ m.
              Stage (leb m 5) m
                (work_off rs
                  (process_sta_attempt r.connect r.acts r.room (record w { queue = [] }), s)).0)
            z rest)
    | inl e ↦
        let five : n ≡ 5 = ground arith in
        let q : w.queue ≡ enter_fallback ∷ [] = ground arith in
        let done = fallback-Recovering r w f.0 (subst (λ m. Trying m w) five t) in
        let more : leb (n + suc (length rs)) 5 ≡ false = ground arith in
        subst (λ b. Stage b (n + suc (length rs)) (work_off (r ∷ rs) (w, s)).0) (sym more)
          (subst (λ x. Recovering x.0)
            (sym (
              work_off-fallback r rs w s q
              ∙ work_off-idle rs
                  (enter_ap_fallback r.set_mode r.start r.acts r.ap_ip (record w { queue = [] })) s
                  done.4))
            done)
  ]

  -- After a start with credentials that returned `ok`, of a component that was not started, not
  -- provisioning and not connected, and the event that the station runs: when each attempt fails to
  -- start or is followed by a disconnection, and the queue has room, then after n rounds of the
  -- worker n attempts have been made with the next one waiting, for n at most 5, and after any more
  -- rounds the recovery access point is enabled, the station is not, and no work is left.
  pub lost_network_ends_in_ap :
      (r : StartRun) (c : Credentials) (w : Wifi) (s : Storage nvs) (rs : List WorkRun)
      → w.started ≡ false
      → w.provisioning_active ≡ false
      → w.status.sta_connected ≡ false
      → starts c.ssid ≡ true
      → (wifi_start r (some c) w).1 ≡ ok
      → All Fails rs
      → Stage
          (leb (length rs) 5)
          (length rs)
          (work_off rs (wifi_event_handler true sta_start (wifi_start r (some c) w).0, s)).0
  unfolding wifi_event_handler
  lost_network_ends_in_ap r c w s rs idle free down given e f =
      let z : 0 + length rs ≡ length rs = omega arith in
      let x : Wifi × Storage nvs =
        (wifi_event_handler true sta_start (wifi_start r (some c) w).0, s) in
      subst (λ m. Stage (leb m 5) m (work_off rs x).0) z
        (work_off-Stage rs 0 x.0 s f (omega arith) (
          schedule-Trying 0 (wifi_start r (some c) w).0
            (started-Idle r c w idle free down given e)))
