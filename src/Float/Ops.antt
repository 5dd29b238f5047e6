-- ===== src/Float/Ops.antt =====
-- The interface to `float` and `double`, and the law of the conversion to `int`.
use esp32_s3_hot_tub_base.Base.{ℕ, ◌^◌, ◌<◌, ◌≡◌, Bool, false}
use esp32_s3_hot_tub_base.Base.Int.{ℤ, pos, ◌≤ℤ◌}

-- A decimal constant `m / 10 ^ d` is written `float_lit m d` (suffix f) or `double_lit m d`.
pub record FloatOps : Type 1 where
  pub Float : Type 0
  pub Double : Type 0
  pub float_lit : ℕ → ℕ → Float
  pub double_lit : ℕ → ℕ → Double
  pub widen : Float → Double
  pub narrow : Double → Float
  pub is_nan : Float → Bool
  pub flt : Float → Float → Bool
  pub dlt : Double → Double → Bool
  pub fadd : Float → Float → Float
  pub fsub : Float → Float → Float
  pub fmul : Float → Float → Float
  pub fdiv : Float → Float → Float
  pub roundf : Float → Float
  pub to_int : Float → ℤ
  pub of_int : ℤ → Double

-- The cast `(int)f` of a number between two whole constants lies between them, the cast of a small
-- whole constant is that number, and such a constant is a number.
pub record FloatLaws (fl : FloatOps) : Type 0 where
  pub to_int_between :
      (f : fl.Float) (lo hi : ℕ)
      → hi < 2 ^ 31
      → fl.is_nan f ≡ false
      → fl.dlt (fl.widen f) (fl.double_lit lo 0) ≡ false
      → fl.dlt (fl.double_lit hi 0) (fl.widen f) ≡ false
      → (pos lo ≤ℤ fl.to_int f) × (fl.to_int f ≤ℤ pos hi)
  pub to_int-lit : (n : ℕ) → n < 2 ^ 24 → fl.to_int (fl.narrow (fl.double_lit n 0)) ≡ pos n
