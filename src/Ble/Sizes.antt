-- ===== src/Ble/Sizes.antt =====
-- How long the headers of the frames are, and how many chunks are enough.
use esp32_s3_hot_tub_base.Base.{
  ℕ, zero, suc, ◌+◌, ◌-◌, ◌*◌, ◌/◌, ◌%◌, ◌^◌, ◌<◌, ◌≤◌, [], ◌∷◌, ◌++◌, length, length-append, arith,
}
use esp32_s3_hot_tub_base.Json.Decimal.{digits, print_u32}
use esp32_s3_hot_tub_base.Ble.Frames.{begin_header, chunk_header, end_header, total_chunks}
use native.Mathlib.Nat.{div-add-mod', mod-lt, mul-suc, div-le_of_le-mul, le-mul_of_pos_right}

-- The number has at most so many digits, and at least room for one.
abbrev Below : ℕ → ℕ → Type 0
Below zero n = ⊥
Below (suc zero) n = n < 10
Below (suc (suc k)) n = Below (suc k) (n / 10)

digits-length : (k fuel n : ℕ) → k ≤ fuel → Below k n → length (digits fuel n) ≤ k
unfolding digits
digits-length zero fuel n le b = absurd b
digits-length (suc zero) zero n le b = absurd (omega arith)
digits-length (suc zero) (suc fuel) n le b = ground arith
digits-length (suc (suc k)) zero n le b = absurd (omega arith)
digits-length (suc (suc k)) (suc fuel) n le b =
    let rest = digits-length (suc k) fuel (n / 10) (omega arith) b in
    ground (arith, rest, length-append (digits fuel (n / 10)) ((b'0' + n % 10) ∷ []))

print-length : (k n : ℕ) → k ≤ 10 → Below k n → length (print_u32 n) ≤ k
unfolding print_u32
print-length k n le b = digits-length k 10 n le b

pub chunk_header-length :
    (id index total : ℕ)
    → id < 2 ^ 32
    → index < 1000000
    → total < 1000000
    → length (chunk_header id index total) ≤ 31
unfolding chunk_header
chunk_header-length id index total a b c =
    let p = print-length 10 id (omega arith) (omega arith) in
    let q = print-length 6 index (omega arith) (omega arith) in
    let r = print-length 6 total (omega arith) (omega arith) in
    omega (
      arith,
      p,
      q,
      r,
      length-append (print_u32 id)
          ((b':' ∷ []) ++ (print_u32 index ++ ((b'/' ∷ []) ++ (print_u32 total ++ (b':' ∷ []))))),
      length-append (print_u32 index) ((b'/' ∷ []) ++ (print_u32 total ++ (b':' ∷ []))),
      length-append (print_u32 total) (b':' ∷ []),
    )

pub begin_header-length :
    (id len max : ℕ)
    → id < 2 ^ 32
    → len < 1000000
    → 32 < max
    → max < 65536
    → length (begin_header id len max) ≤ max
unfolding begin_header
begin_header-length id len max a b lo hi =
    let p = print-length 10 id (omega arith) (omega arith) in
    let q = print-length 6 len (omega arith) (omega arith) in
    let r = print-length 5 max (omega arith) (omega arith) in
    omega (
      arith,
      p,
      q,
      r,
      length-append (print_u32 id)
          ((b':' ∷ []) ++ (print_u32 len ++ ((b':' ∷ []) ++ print_u32 max))),
      length-append (print_u32 len) ((b':' ∷ []) ++ print_u32 max),
    )

pub end_header-length : (id : ℕ) → id < 2 ^ 32 → length (end_header id) ≤ 14
unfolding end_header
end_header-length id a = omega (arith, print-length 10 id (omega arith) (omega arith))

-- The chunks with 32 bytes set aside are enough for the message.
pub total_chunks-enough : (len max : ℕ) → 32 < max → len ≤ total_chunks len max * (max - 32)
unfolding total_chunks
total_chunks-enough len max lt =
    let c = max - 32 in
    let small : (len + c - 1) % c < c = mod-lt (len + c - 1) (omega arith) in
    omega (arith, div-add-mod' (len + c - 1) c, small)

sum_le_product : (c n : ℕ) → 0 < c → suc n + c - 1 ≤ c * suc n
sum_le_product c n pos = omega (arith, mul-suc c n, le-mul_of_pos_right n pos)

-- There are not more chunks than bytes.
pub total_chunks-le : (len max : ℕ) → 32 < max → 0 < len → total_chunks len max ≤ len
unfolding total_chunks
total_chunks-le zero max lt nz = absurd (omega arith)
total_chunks-le (suc n) max lt nz =
    div-le_of_le-mul (max - 32) (sum_le_product (max - 32) n (omega arith))
