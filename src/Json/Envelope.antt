-- ===== src/Json/Envelope.antt =====
-- components/json_service/src/json_service.c: the envelope `CRC32:JSON` of a message. The checksum,
-- the printer and the parser of JSON are arguments; a C string is its bytes, without the terminator.
use esp32_s3_hot_tub_base.Base.{
  ℕ, ◌<◌, ◌^◌, ◌≡◌, ◌≢◌, ◌∙◌, refl, All, Bool, true, List, [], ◌∷◌, ◌++◌, Option, none, some, ◌==◌,
  if◌then◌else◌, arith,
}
use esp32_s3_hot_tub_base.Json.Decimal.{
  print_u32, strtoul, strtoul-print_u32, IsDigit, print_u32-IsDigit,
}

-- `strchr(packet, ':') + 1`
unfoldable pub after_colon : List ℕ → Option (List ℕ)
after_colon [] = none
after_colon (c ∷ cs) = let rest = after_colon cs in if c == b':' then some cs else rest

module _ (crc32 : List ℕ → ℕ) where
  -- `json_service_crc32_envelope_encode` of an item that is not NULL, by the text that
  -- `cJSON_PrintUnformatted` gives and by whether the packet could be allocated.
  unfoldable pub envelope_encode : Bool → Option (List ℕ) → Option (List ℕ)
  unfolding print_u32
  envelope_encode allocated printed = elim printed [
    | none ↦ none
    | some json_str ↦
        if allocated then some (print_u32 (crc32 json_str) ++ (b':' ∷ json_str)) else none
  ]

  -- `json_service_crc32_envelope_decode` of a packet that is not NULL.
  unfoldable pub envelope_decode : {Item : Type 0} → (List ℕ → Option Item) → List ℕ → Option Item
  unfolding after_colon strtoul
  envelope_decode parse packet = elim (after_colon packet) [
    | none ↦ none
    | some json ↦ if strtoul packet == crc32 json then parse json else none
  ]

after_colon-digits :
    (ds rest : List ℕ) → All IsDigit ds → after_colon (ds ++ (b':' ∷ rest)) ≡ some rest
unfolding after_colon
after_colon-digits [] rest a = refl
after_colon-digits (d ∷ ds) rest a = ground (arith, a.0, after_colon-digits ds rest a.1)

module _ {Item : Type 0} (crc32 : List ℕ → ℕ) (parse : List ℕ → Option Item) where
  -- A number, a colon and a text: the text is parsed if the number is its checksum.
  envelope_decode-packet :
      (n : ℕ) (json : List ℕ)
      → n < 2 ^ 32
      → envelope_decode crc32 parse (print_u32 n ++ (b':' ∷ json))
        ≡ (if n == crc32 json then parse json else none)
  unfolding envelope_decode
  envelope_decode-packet n json lt = ground (
    arith,
    after_colon-digits (print_u32 n) json (print_u32-IsDigit n),
    strtoul-print_u32 n b':' json lt refl,
  )

  -- What is decoded from an encoded text is what the parser makes of that text, if the checksum
  -- has 32 bits.
  pub envelope_round_trip :
      (json_str packet : List ℕ)
      → crc32 json_str < 2 ^ 32
      → envelope_encode crc32 true (some json_str) ≡ some packet
      → envelope_decode crc32 parse packet ≡ parse json_str
  unfolding envelope_encode
  envelope_round_trip json_str packet lt e =
      let q = envelope_decode-packet (crc32 json_str) json_str lt in ground (arith, q)

  -- A packet whose text was replaced by one with another checksum is refused, if the checksum that
  -- it carries has 32 bits.
  pub changed_text_refused :
      (json_str other : List ℕ)
      → crc32 json_str < 2 ^ 32
      → crc32 other ≢ crc32 json_str
      → envelope_decode crc32 parse (print_u32 (crc32 json_str) ++ (b':' ∷ other)) ≡ none
  changed_text_refused json_str other lt ne =
      envelope_decode-packet (crc32 json_str) other lt ∙ ground arith
