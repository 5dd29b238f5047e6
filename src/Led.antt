-- ===== src/Led.antt =====
-- components/rgb_led/src/rgb_led.c: the LED as an indicator. What the driver of the strip returns is an
-- argument; where ESP_ERROR_CHECK stops the device, a result is missing.
mod Tests
use esp32_s3_hot_tub_base.Base.{
  ℕ, zero, suc, ◌+◌, ◌*◌, ◌/◌, ◌%◌, ◌≤◌, ◌<◌, ◌≡◌, refl, ◌∙◌, ap, inl, inr, Bool, true, false, ◌&&◌,
  List, [], ◌∷◌, Option, none, some, replicate, ltb, ◌==◌, if◌then◌else◌, arith,
}
use esp32_s3_hot_tub_base.Base.Int.{ℤ, pos, ltb_ℤ}
use esp32_s3_hot_tub_base.Esp.{EspErr, ok, invalid_state, invalid_arg, is_ok}

-- `led_strip` (a handle or NULL), `color`, `_heartbeat_time_interval_ms_`
pub record Led : Type 0 where
  pub led_strip : Bool
  pub color : ℕ
  pub heartbeat_time_interval_ms : ℤ

-- LED_STRIP_INTENSITY
abbrev pub led_strip_intensity : ℕ
led_strip_intensity = 1

-- What the driver does in a call: whether it sets or clears the pixel, and refreshes the strip.
pub record StripRun : Type 0 where
  pub change : EspErr
  pub refresh : EspErr

-- `set_rgb_led_color`: its result, with the color that is shown.
unfoldable pub set_rgb_led_color : StripRun → ℕ → ℕ → ℕ → Led → Option (EspErr × Option (ℕ × ℕ × ℕ))
set_rgb_led_color r red green blue l =
    if l.led_strip
    then (if is_ok r.change && is_ok r.refresh then some (ok, some (red, green, blue)) else none)
    else some (invalid_state, none)

-- `clear_rgb_led`
unfoldable pub clear_rgb_led : StripRun → Led → Option EspErr
clear_rgb_led r l =
    if l.led_strip
    then (if is_ok r.change && is_ok r.refresh then some ok else none)
    else some invalid_state

-- `init_ws2812_led`, by what the creation of the strip returns. ESP_ERROR_CHECK of the clearing.
unfoldable pub init_ws2812_led : EspErr → StripRun → Led → Option (EspErr × Led)
unfolding clear_rgb_led
init_ws2812_led new_device r l =
    let made : Led = record l { led_strip = true } in
    let cleared : Option (EspErr × Led) = elim (clear_rgb_led r made) [
      | none ↦ none
      | some err ↦ if is_ok err then some (ok, made) else none
    ] in
    if is_ok new_device then cleared else some (new_device, l)

-- `deinit_rgb_led`, by what the deletion of the strip returns.
unfoldable pub deinit_rgb_led : EspErr → Led → Option (EspErr × Led)
deinit_rgb_led deleted l =
    if l.led_strip
    then (if is_ok deleted then some (ok, record l { led_strip = false }) else none)
    else some (invalid_state, l)

-- The color that is shown in a step of the cycle, and the next one.
abbrev pub cycle_color : ℕ → Option (ℕ × ℕ × ℕ) × ℕ
cycle_color zero = (some (led_strip_intensity, 0, 0), 1)
cycle_color (suc zero) = (some (0, led_strip_intensity, 0), 2)
cycle_color (suc (suc zero)) = (some (0, 0, led_strip_intensity), 0)
cycle_color _ = (none, 0)

-- `cycle_rgb_led_colors`, with the color that it shows.
unfoldable pub cycle_rgb_led_colors : StripRun → Led → Option (EspErr × Option (ℕ × ℕ × ℕ) × Led)
unfolding set_rgb_led_color
cycle_rgb_led_colors r l =
    let next : Led = record l { color = (cycle_color l.color).1 } in
    let shown : Option (EspErr × Option (ℕ × ℕ × ℕ) × Led) = elim (cycle_color l.color).0 [
      | none ↦ some (ok, none, next)
      | some (red, green, blue) ↦ elim (set_rgb_led_color r red green blue l) [
        | none ↦ none
        | some (err, c) ↦ if is_ok err then some (ok, c, next) else none
      ]
    ] in
    if l.led_strip then shown else some (invalid_state, none, l)

-- `set_heartbeat_interval`
unfoldable pub set_heartbeat_interval : ℤ → Led → EspErr × Led
set_heartbeat_interval interval_ms l =
    if ltb_ℤ (pos 0) interval_ms
    then (ok, record l { heartbeat_time_interval_ms = interval_ms })
    else (invalid_arg, l)

-- The rounds of `heartbeat_loop_task` after it registered with the watchdog, while nobody sets the
-- interval: the colors that are shown and the times that are waited, until the device is stopped.
unfoldable pub heartbeat_loop : List StripRun → Led → List (Option (ℕ × ℕ × ℕ) × ℤ)
unfolding cycle_rgb_led_colors
heartbeat_loop [] l = []
heartbeat_loop (r ∷ rs) l = elim (cycle_rgb_led_colors r l) [
  | none ↦ []
  | some (err, c, l') ↦
      let rest = heartbeat_loop rs l' in
      if is_ok err then (c, l'.heartbeat_time_interval_ms) ∷ rest else []
]
