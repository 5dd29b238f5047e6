-- ===== src/Json/Decimal.antt =====
-- `snprintf` of a `uint32_t` in decimal, and `strtoul` with base 10, as json_service.c uses them. An
-- `unsigned long` has 32 bits here.
use esp32_s3_hot_tub_base.Base.{
  ℕ, zero, suc, ◌+◌, ◌-◌, ◌*◌, ◌/◌, ◌%◌, ◌^◌, ◌<◌, ◌≤◌, ◌≡◌, ◌∙◌, ◌⊎◌, inl, inr, refl, ap, sym,
  subst, All, length, length-append, Bool, false, ◌&&◌, ◌||◌, List, [], ◌∷◌, ◌++◌, ltb, leb, ◌==◌,
  if◌then◌else◌, arith,
}

-- The decimal digits of a number below `10 ^ fuel`.
unfoldable pub digits : ℕ → ℕ → List ℕ
digits zero n = []
digits (suc fuel) n =
    let rest = digits fuel (n / 10) in
    let last : List ℕ = (b'0' + n % 10) ∷ [] in if ltb n 10 then last else rest ++ last

-- `"%" PRIu32`: ten digits are enough for 32 bits.
unfoldable pub print_u32 : ℕ → List ℕ
unfolding digits
print_u32 n = digits 10 n

abbrev pub is_digit : ℕ → Bool
is_digit c = leb b'0' c && leb c b'9'

-- The value of the digits at the start, after the digits read so far.
unfoldable pub scan_digits : ℕ → List ℕ → ℕ
scan_digits acc [] = acc
scan_digits acc (c ∷ cs) =
    let rest = scan_digits (acc * 10 + (c - b'0')) cs in if is_digit c then rest else acc

abbrev saturated : ℕ → ℕ
saturated n = if ltb n (2 ^ 32) then n else 2 ^ 32 - 1

-- The sign, then the digits; a value out of range is `ULONG_MAX`.
unfoldable pub scan_sign : List ℕ → ℕ
unfolding scan_digits
scan_sign [] = 0
scan_sign (c ∷ cs) =
    if c == b'-'
    then (let n = scan_digits 0 cs in if ltb n (2 ^ 32) then (2 ^ 32 - n) % 2 ^ 32 else 2 ^ 32 - 1)
    else (if c == b'+' then saturated (scan_digits 0 cs) else saturated (scan_digits 0 (c ∷ cs)))

abbrev is_space : ℕ → Bool
is_space c = c == 32 || (leb 9 c && leb c 13)

-- `strtoul(str, NULL, 10)`
unfoldable pub strtoul : List ℕ → ℕ
unfolding scan_sign
strtoul [] = 0
strtoul (c ∷ cs) = let rest = strtoul cs in if is_space c then rest else scan_sign (c ∷ cs)

lt_cases : (n : ℕ) → (n < 10) ⊎ (10 ≤ n)
lt_cases n = ground arith

-- The number has at most as many digits.
abbrev Fits : ℕ → ℕ → Type 0
Fits zero n = n ≡ 0
Fits (suc fuel) n = Fits fuel (n / 10)

u32-Fits : (n : ℕ) → n < 2 ^ 32 → Fits 10 n
u32-Fits n lt = omega arith

append_digit : (xs : List ℕ) (d : ℕ) (rest : List ℕ) → (xs ++ (d ∷ [])) ++ rest ≡ xs ++ (d ∷ rest)
append_digit [] d rest = refl
append_digit (x ∷ xs) d rest = ap (◌∷◌ x) (append_digit xs d rest)

scan_digit :
    (acc d : ℕ) (rest : List ℕ)
    → d < 10
    → scan_digits acc ((b'0' + d) ∷ rest) ≡ scan_digits (acc * 10 + d) rest
unfolding scan_digits
scan_digit acc d rest lt =
    let e : acc * 10 + (b'0' + d - b'0') ≡ acc * 10 + d = omega arith in
    ground (arith, ap (λ k. scan_digits k rest) e)

digits-small : (fuel n : ℕ) → n < 10 → digits (suc fuel) n ≡ (b'0' + n % 10) ∷ []
unfolding digits
digits-small fuel n lt = ground arith

digits-large :
    (fuel n : ℕ) → 10 ≤ n → digits (suc fuel) n ≡ digits fuel (n / 10) ++ ((b'0' + n % 10) ∷ [])
unfolding digits
digits-large fuel n le = ground arith

scan_stop : (acc c : ℕ) (rest : List ℕ) → is_digit c ≡ false → scan_digits acc (c ∷ rest) ≡ acc
unfolding scan_digits
scan_stop acc c rest nd = ground arith

scan_digits-small :
    (fuel n : ℕ) (rest : List ℕ)
    → n < 10
    → scan_digits 0 (digits (suc fuel) n ++ rest) ≡ scan_digits n rest
scan_digits-small fuel n rest small =
    ap (λ d. scan_digits 0 (d ++ rest)) (digits-small fuel n small)
    ∙ scan_digit 0 (n % 10) rest (omega arith)
    ∙ ap (λ k. scan_digits k rest) (omega arith)

scan_digits-digits :
    (fuel n : ℕ) (rest : List ℕ)
    → Fits (suc fuel) n
    → scan_digits 0 (digits (suc fuel) n ++ rest) ≡ scan_digits n rest
scan_digits-digits zero n rest fits = scan_digits-small zero n rest (omega (arith, fits))
scan_digits-digits (suc fuel) n rest fits = elim (lt_cases n) [
  | inl small ↦ scan_digits-small (suc fuel) n rest small
  | inr large ↦
      ap (λ d. scan_digits 0 (d ++ rest)) (digits-large (suc fuel) n large)
      ∙ ap (scan_digits 0) (append_digit (digits (suc fuel) (n / 10)) (b'0' + n % 10) rest)
      ∙ scan_digits-digits fuel (n / 10) ((b'0' + n % 10) ∷ rest) fits
      ∙ scan_digit (n / 10) (n % 10) rest (omega arith)
      ∙ ap (λ k. scan_digits k rest) (omega arith)
]

abbrev pub IsDigit : ℕ → Type 0
IsDigit d = (b'0' ≤ d) × (d ≤ b'9')

All-append {ℓ} :
    {A : Type 0} (P : A → Type ℓ) (xs ys : List A) → All P xs → All P ys → All P (xs ++ ys)
All-append P [] ys a b = b
All-append P (x ∷ xs) ys a b = (a.0, All-append P xs ys a.1 b)

digits-IsDigit : (fuel n : ℕ) → All IsDigit (digits fuel n)
unfolding digits
digits-IsDigit zero n = tt
digits-IsDigit (suc fuel) n =
    let d : IsDigit (b'0' + n % 10) = (omega arith, omega arith) in
    elim (lt_cases n) [
      | inl small ↦ subst (All IsDigit) (sym (digits-small fuel n small)) (d, tt)
      | inr large ↦ subst (All IsDigit) (sym (digits-large fuel n large)) (
          All-append IsDigit (digits fuel (n / 10)) ((b'0' + n % 10) ∷ [])
            (digits-IsDigit fuel (n / 10)) (d, tt))
    ]

digits-some : (fuel n : ℕ) → 0 < length (digits (suc fuel) n)
digits-some fuel n = elim (lt_cases n) [
  | inl small ↦ omega (arith, ap length (digits-small fuel n small))
  | inr large ↦ omega (
    arith,
    ap length (digits-large fuel n large),
    length-append (digits fuel (n / 10)) ((b'0' + n % 10) ∷ []),
  )
]

strtoul-IsDigit :
    (ds rest : List ℕ)
    → All IsDigit ds
    → 0 < length ds
    → scan_digits 0 (ds ++ rest) < 2 ^ 32
    → strtoul (ds ++ rest) ≡ scan_digits 0 (ds ++ rest)
unfolding strtoul scan_sign
strtoul-IsDigit [] rest a pos lt = absurd (omega arith)
strtoul-IsDigit (d ∷ ds) rest a pos lt = ground (arith, a.0)

-- A printed number of 32 bits is read back, up to the first character that is no digit.
pub strtoul-print_u32 :
    (n c : ℕ) (rest : List ℕ)
    → n < 2 ^ 32
    → is_digit c ≡ false
    → strtoul (print_u32 n ++ (c ∷ rest)) ≡ n
unfolding print_u32
strtoul-print_u32 n c rest lt nd =
    let e : scan_digits 0 (digits 10 n ++ (c ∷ rest)) ≡ n =
      scan_digits-digits 9 n (c ∷ rest) (u32-Fits n lt) ∙ scan_stop n c rest nd in
    strtoul-IsDigit (digits 10 n) (c ∷ rest) (digits-IsDigit 10 n) (digits-some 9 n)
      (subst (λ k. k < 2 ^ 32) (sym e) lt)
    ∙ e

pub print_u32-IsDigit : (n : ℕ) → All IsDigit (print_u32 n)
unfolding print_u32
print_u32-IsDigit n = digits-IsDigit 10 n
