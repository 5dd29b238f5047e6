-- ===== src/Wifi/Waits.antt =====
-- The waits for a link, and the publishing of the status, leave the mode and the credentials alone.
use esp32_s3_hot_tub_base.Base.{ℕ, zero, suc, Bool, List, [], ◌∷◌, Option, none, some, arith}
use esp32_s3_hot_tub_base.Esp.{EspErr}
use esp32_s3_hot_tub_base.Wifi.State.{
  Credentials, ModeState, Client, Wifi, update_ap_ip, publish_network_status, refresh_ap_clients,
  sta_connecting, provision_attempts,
}
use esp32_s3_hot_tub_base.Wifi.Events.{Act, run_act, run_acts}
use esp32_s3_hot_tub_base.Wifi.Attempts.{publish_ap_fallback_status}
use esp32_s3_hot_tub_base.Wifi.Trial.{
  clear_bits, wait_bits, wait_for_candidate_connection, TrialRun,
}
use esp32_s3_hot_tub_base.Wifi.Provision.{link_outcome, try_link}
use esp32_s3_hot_tub_base.Wifi.Modes.{
  Same, Bounded, Same-trans, run_act-Same, run_act-Bounded, run_acts-Same, run_acts-Bounded,
}

-- Both at once: a step that leaves the mode alone and keeps the bounds.
abbrev pub Quiet : (Wifi → Wifi) → Type 0
Quiet f = (w : Wifi) → Same w (f w) × (Bounded w → Bounded (f w))

pub Quiet-then : (f g : Wifi → Wifi) → Quiet f → Quiet g → Quiet (λ w. g (f w))
Quiet-then f g p q w =
    (Same-trans w (f w) (g (f w)) (p w).0 (q (f w)).0, λ b. (q (f w)).1 ((p w).1 b))

pub run_acts-Quiet : (acts : List Act) → Quiet (run_acts acts)
run_acts-Quiet acts w = (run_acts-Same acts w, run_acts-Bounded acts w)

pub publish-Quiet :
    (mode : ModeState) (ssid ip : List ℕ) → Quiet (publish_network_status mode ssid ip)
unfolding publish_network_status
publish-Quiet mode ssid ip w = ground arith

pub publish_fallback-Quiet : (ip : Option (List ℕ)) → Quiet (publish_ap_fallback_status ip)
unfolding publish_ap_fallback_status update_ap_ip publish_network_status
publish_fallback-Quiet none w = ground arith
publish_fallback-Quiet (some ip) w = ground arith

pub refresh-Quiet : (stations : Option (List Client)) → Quiet (refresh_ap_clients stations)
unfolding refresh_ap_clients
refresh-Quiet none w = ground arith
refresh-Quiet (some l) w = ground arith

pub clear_bits-Quiet : Quiet clear_bits
clear_bits-Quiet w = ground arith

wait_bits-Quiet : (acts : List Act) → Quiet (wait_bits acts)
unfolding wait_bits
wait_bits-Quiet [] w = ground arith
wait_bits-Quiet (a ∷ acts) w =
    let rest =
      Quiet-then (run_act a) (wait_bits acts) (λ v. (run_act-Same a v, run_act-Bounded a v))
        (wait_bits-Quiet acts) w in
    ground (arith, rest)

pub wait_for-Quiet :
    (n : ℕ) (during : ℕ → List Act) → Quiet (λ w. (wait_for_candidate_connection n during w).1)
unfolding wait_for_candidate_connection
wait_for-Quiet zero during w = ground arith
wait_for-Quiet (suc n) during w =
    let waited =
      Quiet-then (wait_bits (during n)) clear_bits (wait_bits-Quiet (during n)) clear_bits-Quiet
        w in
    let v : Wifi = clear_bits (wait_bits (during n) w) in
    let rest =
      Quiet-then (λ u. clear_bits (wait_bits (during n) u))
        (λ u. (wait_for_candidate_connection n during u).1)
        (Quiet-then (wait_bits (during n)) clear_bits (wait_bits-Quiet (during n)) clear_bits-Quiet)
        (wait_for-Quiet n during) w in
    ground (arith, waited, rest)

-- What holds of the three states of a trial holds of the state of its outcome.
pub link_outcome-any :
    (P : Wifi → Type 0) (t : TrialRun) (was_ap : Bool) (w : Wifi) (r r' : EspErr × Wifi)
    → P w
    → P r.1
    → P r'.1
    → P (link_outcome t was_ap w r r').1
unfolding link_outcome
link_outcome-any P t was_ap w r r' p q q' = ground arith

-- A trial until its link changes neither the mode nor the credentials in use.
pub try_link-Quiet :
    (t : TrialRun) (was_ap : Bool) (c : Credentials) → Quiet (λ w. (try_link t was_ap c w).1)
unfolding try_link
try_link-Quiet t was_ap c w =
    let early = run_acts-Quiet t.early in
    let published : Wifi → Wifi =
      λ u. publish_network_status sta_connecting c.ssid [] (run_acts t.early u) in
    let published_q : Quiet published =
      Quiet-then (run_acts t.early) (publish_network_status sta_connecting c.ssid []) early
        (publish-Quiet sta_connecting c.ssid []) in
    let linked : Wifi → Wifi =
      λ u. (wait_for_candidate_connection provision_attempts t.waits (published u)).1 in
    let linked_q : Quiet linked =
      Quiet-then published (λ u. (wait_for_candidate_connection provision_attempts t.waits u).1)
        published_q (wait_for-Quiet provision_attempts t.waits) in
    let again_q =
      Quiet-then linked (λ u. (wait_for_candidate_connection provision_attempts t.again u).1)
        linked_q (wait_for-Quiet provision_attempts t.again) in
    link_outcome-any (λ u. Same w u × (Bounded w → Bounded u)) t was_ap (run_acts t.early w)
      (wait_for_candidate_connection provision_attempts t.waits (published w))
      (wait_for_candidate_connection provision_attempts t.again (linked w)) (early w) (linked_q w)
      (again_q w)
