-- ===== src/Ble/Secure.antt =====
-- Only a secure connection changes the network or starts an update.
use esp32_s3_hot_tub_base.Base.{
  ℕ, ◌≡◌, refl, Bool, true, false, ◌||◌, List, Option, none, some, length, take, leb, if◌then◌else◌,
}
use esp32_s3_hot_tub_base.HotTub.State.{c_string}
use esp32_s3_hot_tub_base.WebServer.Files.{same_bytes}
use esp32_s3_hot_tub_base.Wifi.State.{Wifi}
use esp32_s3_hot_tub_base.Ble.Text.{
  ota_update_text, trim_in_place, str_equals_ignore_case, status_command, github_command,
  manifest_command, credentials_command,
}
use esp32_s3_hot_tub_base.Ble.Commands.{
  Ble, Security, connection_is_secure, att_ok, unlikely, insufficient_authen, Message, BleRun,
  Handled, unhandled, request_command, run_request, handle_rx_json_request,
}
use esp32_s3_hot_tub_base.Ble.Rx.{
  run_ota_update, in_mode, run_text_command, handle_rx_command, Access, write_chr, other_access,
  rx_access_cb,
}

-- The Wi-Fi manager is as before, and no update is requested that was not.
abbrev pub Harmless : Ble → Wifi → Handled → Type 0
Harmless b w h = (h.wifi ≡ w) × (h.ble.ota_request_pending ≡ b.ota_request_pending)

-- What holds of a command that is handled, if it is.
abbrev HarmlessIf : Ble → Wifi → Option Handled → Type 0
HarmlessIf b w none = Unit {0}
HarmlessIf b w (some h) = Harmless b w h

Harmless-if :
    (b : Ble) (w : Wifi) (c : Bool) (x y : Handled)
    → Harmless b w x
    → Harmless b w y
    → Harmless b w (if c then x else y)
Harmless-if b w true x y p q = p
Harmless-if b w false x y p q = q

HarmlessIf-if :
    (b : Ble) (w : Wifi) (c : Bool) (x y : Option Handled)
    → HarmlessIf b w x
    → HarmlessIf b w y
    → HarmlessIf b w (if c then x else y)
HarmlessIf-if b w true x y p q = p
HarmlessIf-if b w false x y p q = q

run_request-HarmlessIf :
    (r : BleRun) (conn : Option Security) (msg : Message) (cmd : List ℕ) (b : Ble) (w : Wifi)
    → connection_is_secure conn ≡ false
    → HarmlessIf b w (run_request r conn msg cmd b w)
unfolding run_request
run_request-HarmlessIf r conn msg cmd b w e = rw e (
    HarmlessIf-if b w (same_bytes cmd status_command) _ _ (refl, refl)
      (HarmlessIf-if b w (same_bytes cmd github_command || same_bytes cmd manifest_command)
        (some (unhandled insufficient_authen b w)) _ (refl, refl)
        (HarmlessIf-if b w (same_bytes cmd credentials_command)
          (some (unhandled insufficient_authen b w)) none (refl, refl) tt)))

HarmlessIf-elim :
    (b : Ble) (w : Wifi) (o : Option (List ℕ)) (f : List ℕ → Option Handled)
    → ((cmd : List ℕ) → HarmlessIf b w (f cmd))
    → HarmlessIf b w (elim o [ none ↦ none | some cmd ↦ f cmd ])
HarmlessIf-elim b w none f h = tt
HarmlessIf-elim b w (some cmd) f h = h cmd

json-HarmlessIf :
    (r : BleRun) (conn : Option Security) (m : Option Message) (b : Ble) (w : Wifi)
    → connection_is_secure conn ≡ false
    → HarmlessIf b w (handle_rx_json_request r conn m b w)
unfolding handle_rx_json_request
json-HarmlessIf r conn none b w e = tt
json-HarmlessIf r conn (some msg) b w e =
    HarmlessIf-elim b w (request_command msg) (λ cmd. run_request r conn msg cmd b w)
      (λ cmd. run_request-HarmlessIf r conn msg cmd b w e)

update-Harmless :
    (r : BleRun) (conn : Option Security) (b : Ble) (w : Wifi)
    → connection_is_secure conn ≡ false
    → Harmless b w (run_ota_update r conn b w)
unfolding run_ota_update
update-Harmless r none b w e = (refl, refl)
update-Harmless r (some s) b w e = rw e (refl, refl)

text-Harmless :
    (r : BleRun) (conn : Option Security) (cmd : List ℕ) (b : Ble) (w : Wifi)
    → connection_is_secure conn ≡ false
    → Harmless b w (run_text_command r conn cmd b w)
unfolding run_text_command
text-Harmless r conn cmd b w e =
    Harmless-if b w (str_equals_ignore_case cmd ota_update_text) _ _ (update-Harmless r conn b w e)
      (Harmless-if b w _ (in_mode b.status_compact_mode b w) _ (refl, refl)
        (Harmless-if b w _ (in_mode false b w) _ (refl, refl)
          (Harmless-if b w _ (in_mode true b w) (unhandled att_ok b w) (refl, refl) (refl, refl))))

either-Harmless :
    (b : Ble) (w : Wifi) (o : Option Handled) (t : Handled)
    → HarmlessIf b w o
    → Harmless b w t
    → Harmless b w (elim o [ some h ↦ h | none ↦ t ])
either-Harmless b w none t p q = q
either-Harmless b w (some h) t p q = p

command-Harmless :
    (r : BleRun) (parse : List ℕ → Option Message) (conn : Option Security) (payload : List ℕ)
    (b : Ble) (w : Wifi)
    → connection_is_secure conn ≡ false
    → Harmless b w (handle_rx_command r parse conn payload b w)
unfolding handle_rx_command
command-Harmless r parse conn payload b w e =
    either-Harmless b w (handle_rx_json_request r conn (parse payload) b w)
      (run_text_command r conn (trim_in_place (take 255 payload)) b w)
      (json-HarmlessIf r conn (parse payload) b w e)
      (text-Harmless r conn (trim_in_place (take 255 payload)) b w e)

-- Whatever a client writes, and whatever the parser and the platform make of it: over a connection
-- that is not found, or is not encrypted, authenticated and bonded, the state of the Wi-Fi manager
-- stays as it is, and no update becomes requested.
pub rx_access_cb-Harmless :
    (r : BleRun) (parse : List ℕ → Option Message) (conn : Option Security) (a : Access) (b : Ble)
    (w : Wifi)
    → connection_is_secure conn ≡ false
    → Harmless b w (rx_access_cb r parse conn a b w)
unfolding rx_access_cb
rx_access_cb-Harmless r parse conn other_access b w e = (refl, refl)
rx_access_cb-Harmless r parse conn (write_chr bytes copied) b w e =
    Harmless-if b w (leb 256 (length bytes)) _ _ (refl, refl)
      (Harmless-if b w copied _ (unhandled unlikely b w)
        (command-Harmless r parse conn (c_string bytes) b w e) (refl, refl))
