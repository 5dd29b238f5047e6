-- ===== src/Json/Tests.antt =====
-- Envelopes with a small checksum in the place of the CRC32.
use esp32_s3_hot_tub_base.Base.{ℕ, ◌+◌, ◌≡◌, refl, true, List, [], ◌∷◌, ◌++◌, none, some, arith}
use esp32_s3_hot_tub_base.Json.Decimal.{print_u32, digits}
use esp32_s3_hot_tub_base.Float.Fixed.{literal}
use esp32_s3_hot_tub_base.Json.Plain.{Value, object, number, text, member, empty, plain}
use esp32_s3_hot_tub_base.Json.Rpc.{rpc_envelope, type_req}
use esp32_s3_hot_tub_base.Json.Envelope.{
  envelope_encode, envelope_decode, envelope_round_trip, changed_text_refused,
}

abbrev sum : List ℕ → ℕ
sum [] = 0
sum (c ∷ cs) = c + sum cs

-- "{}" has the sum 248, "[]" the sum 184.
abbrev braces : List ℕ
braces = b'{' ∷ b'}' ∷ []

abbrev brackets : List ℕ
brackets = b'[' ∷ b']' ∷ []

abbrev packet : List ℕ
packet = b'2' ∷ b'4' ∷ b'8' ∷ b':' ∷ braces

encoded : envelope_encode sum true (some braces) ≡ some packet
unfolding envelope_encode print_u32 digits
encoded = refl

envelope_round_trip_example : envelope_decode sum some packet ≡ some braces
envelope_round_trip_example = envelope_round_trip sum some braces packet (omega arith) encoded

changed_text_refused_example : envelope_decode sum some (print_u32 248 ++ (b':' ∷ brackets)) ≡ none
changed_text_refused_example =
    changed_text_refused sum some braces brackets (omega arith) (omega arith)

-- {"type":"req","cmd":"x","id":7}, and a message whose type is no string.
abbrev request : Value
request = object (
    member "type" (text "req") (member "cmd" (text "x") (member "id" (number (literal 7 0)) empty)))

parses_request : rpc_envelope plain true some request ≡ record {
  out_type = some type_req;
  out_id = some 7;
  out_cmd = some (some "x");
  out_params = none;
}
unfolding rpc_envelope esp32_s3_hot_tub_base.Json.Plain.int_of
parses_request = refl

leaves_type :
    (rpc_envelope plain true some (object (member "type" (number (literal 7 0)) empty))).out_type
    ≡ none
unfolding rpc_envelope
leaves_type = refl
