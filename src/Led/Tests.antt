-- ===== src/Led/Tests.antt =====
-- The cycle of colors, and the interval of the heartbeat.
use esp32_s3_hot_tub_base.Base.{◌≡◌, refl, true, [], ◌∷◌, some}
use esp32_s3_hot_tub_base.Base.Int.{pos, negsuc}
use esp32_s3_hot_tub_base.Esp.{ok, fail, invalid_arg}
use esp32_s3_hot_tub_base.Led.{Led, StripRun, set_heartbeat_interval, heartbeat_loop}

abbrev lit : Led
lit = record { led_strip = true; color = 0; heartbeat_time_interval_ms = pos 1000 }

abbrev works : StripRun
works = record { change = ok; refresh = ok }

-- Red, green, blue, and red again, each for the interval of an update.
cycles :
    heartbeat_loop
      (works ∷ (works ∷ (works ∷ (works ∷ []))))
      (set_heartbeat_interval (pos 20) lit).1
    ≡ (some (1, 0, 0), pos 20)
      ∷ ((some (0, 1, 0), pos 20) ∷ ((some (0, 0, 1), pos 20) ∷ ((some (1, 0, 0), pos 20) ∷ [])))
unfolding heartbeat_loop set_heartbeat_interval
cycles = refl

-- A refresh that fails stops the device; an interval that is not positive is refused.
stops :
    (heartbeat_loop (works ∷ (record works { refresh = fail } ∷ (works ∷ []))) lit
      ≡ (some (1, 0, 0), pos 1000) ∷ [])
    × (set_heartbeat_interval (negsuc 0) lit ≡ (invalid_arg, lit))
unfolding heartbeat_loop set_heartbeat_interval
stops = (refl, refl)
