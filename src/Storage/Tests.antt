-- ===== src/Storage/Tests.antt =====
-- Credentials written to and read from a storage in memory.
use esp32_s3_hot_tub_base.Base.{ℕ, ◌≡◌, refl, false, List, [], ◌∷◌, some, arith}
use esp32_s3_hot_tub_base.Esp.{ok}
use esp32_s3_hot_tub_base.HotTub.State.{c_string}
use esp32_s3_hot_tub_base.Storage.Driver.{Storage, open_storage, init_or_erase}
use esp32_s3_hot_tub_base.Storage.Credentials.{
  get_wifi_credentials, set_wifi_credentials, strnlen, to_bytes, field_of,
}
use esp32_s3_hot_tub_base.Storage.RoundTrip.{credentials_round_trip}
use esp32_s3_hot_tub_base.Storage.Memory.{memory, memory_laws, blank}

abbrev closed : Storage memory
closed = record { initialized = false; flash = blank }

abbrev home : List ℕ
home = b'h' ∷ b'o' ∷ b'm' ∷ b'e' ∷ []

abbrev secret : List ℕ
secret = b's' ∷ b'e' ∷ b'c' ∷ b'r' ∷ b'e' ∷ b't' ∷ b'0' ∷ b'1' ∷ []

credentials_round_trip_example :
    let s = (set_wifi_credentials memory home secret closed).1 in
    get_wifi_credentials memory 33 65 s ≡ (ok, some (home, secret), s)
unfolding c_string set_wifi_credentials strnlen open_storage init_or_erase to_bytes field_of
credentials_round_trip_example =
    credentials_round_trip memory memory_laws home secret 33 65 closed refl (omega arith)
      (omega arith)
