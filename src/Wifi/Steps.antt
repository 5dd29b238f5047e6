-- ===== src/Wifi/Steps.antt =====
-- components/wifi_manager/src/wifi_manager.c: the worker task, and the runs of the component as a
-- relation between its states, where the other tasks act between any two rounds of the worker.
use esp32_s3_hot_tub_base.Base.{◌≡◌, ℕ, Bool, false, List, ◌∷◌, Option, none}
use esp32_s3_hot_tub_base.Esp.{EspErr, ok}
use esp32_s3_hot_tub_base.Storage.Driver.{NvsStore, Storage}
use esp32_s3_hot_tub_base.Wifi.State.{
  Credentials, Client, Wifi, Work, connect_sta, enter_fallback, retry_sta, refresh_clients,
  provision_work, refresh_ap_clients,
}
use esp32_s3_hot_tub_base.Wifi.Events.{Act, run_act}
use esp32_s3_hot_tub_base.Wifi.Attempts.{enter_ap_fallback, process_sta_attempt}
use esp32_s3_hot_tub_base.Wifi.Trial.{TrialRun, RollbackRun}
use esp32_s3_hot_tub_base.Wifi.Provision.{
  RetryRun, process_provision_request, process_fallback_retry,
}
use esp32_s3_hot_tub_base.Wifi.Start.{StartRun, wifi_start}

-- What the calls of one round of the worker return, and what happens during it.
pub record WorkRun : Type 0 where
  pub connect : EspErr
  pub set_mode : EspErr
  pub start : EspErr
  pub acts : List Act
  pub room : Bool
  pub ap_ip : Option (List ℕ)
  pub stations : Option (List Client)
  pub trial : TrialRun
  pub rollback : RollbackRun
  pub retry : RetryRun

module _ (nvs : NvsStore) where
  -- The body of the loop of `wifi_provisioning_task`, with the report of a request.
  unfoldable pub run_work :
      WorkRun → Work → Wifi × Storage nvs → Wifi × Storage nvs × Option (ℕ × EspErr)
  unfolding process_sta_attempt enter_ap_fallback process_provision_request process_fallback_retry
      refresh_ap_clients
  run_work r connect_sta (w, s) = (process_sta_attempt r.connect r.acts r.room w, s, none)
  run_work r enter_fallback (w, s) =
      (enter_ap_fallback r.set_mode r.start r.acts r.ap_ip w, s, none)
  run_work r (provision_work c request_id) (w, s) =
      process_provision_request nvs r.trial r.rollback c request_id (w, s)
  run_work r retry_sta (w, s) = (process_fallback_retry r.retry w, s, none)
  run_work r refresh_clients (w, s) = (refresh_ap_clients r.stations w, s, none)

  pub data Step : Wifi × Storage nvs → Wifi × Storage nvs → Type 0 where
    acts : (a : Act) (w : Wifi) (s : Storage nvs) → Step (w, s) (run_act a w, s)
    works :
        (r : WorkRun) (item : Work) (rest : List Work) (w : Wifi) (s : Storage nvs)
        → w.queue ≡ item ∷ rest
        → Step
            (w, s)
            (
              (run_work r item (record w { queue = rest }, s)).0,
              (run_work r item (record w { queue = rest }, s)).1,
            )

  -- The states that a start which succeeded leads to.
  pub data Reach : Wifi × Storage nvs → Type 0 where
    started_up :
        (r : StartRun) (c : Option Credentials) (w : Wifi) (s : Storage nvs)
        → w.started ≡ false
        → (wifi_start r c w).1 ≡ ok
        → Reach ((wifi_start r c w).0, s)
    next : {x y : Wifi × Storage nvs} → Reach x → Step x y → Reach y
