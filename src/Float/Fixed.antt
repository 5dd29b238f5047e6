-- ===== src/Float/Fixed.antt =====
-- An instance of the interface that runs: decimal fractions in thousandths, with a NaN that compares
-- false with everything.
use esp32_s3_hot_tub_base.Base.{ℕ, suc, ◌+◌, ◌*◌, ◌/◌, ◌^◌, ◌≡◌, Bool, true, false, arith}
use esp32_s3_hot_tub_base.Base.Int.{ℤ, pos, negsuc, sub_ℕ, ◌+ℤ◌, ◌-ℤ◌, ◌*ℤ◌, ◌≤ℤ◌, quot_ℕ, ltb_ℤ}
use esp32_s3_hot_tub_base.Float.Ops.{FloatOps, FloatLaws}

pub data Fixed : Type 0 where
  nan : Fixed
  milli : ℤ → Fixed

abbrev pub lt : Fixed → Fixed → Bool
lt (milli a) (milli b) = ltb_ℤ a b
lt _ _ = false

abbrev pub lift : (ℤ → ℤ → ℤ) → Fixed → Fixed → Fixed
lift f (milli a) (milli b) = milli (f a b)
lift f _ _ = nan

-- Half away from zero, to a whole number.
abbrev pub round : Fixed → Fixed
round (milli (pos n)) = milli (pos ((n + 500) / 1000 * 1000))
round (milli (negsuc n)) = milli (sub_ℕ 0 ((suc n + 500) / 1000 * 1000))
round nan = nan

abbrev pub divide : Fixed → Fixed → Fixed
divide (milli a) (milli (pos (suc n))) = milli (quot_ℕ (a *ℤ pos 1000) (suc n))
divide _ _ = nan

abbrev pub truncate : Fixed → ℤ
truncate (milli a) = quot_ℕ a 1000
truncate nan = pos 0

abbrev pub literal : ℕ → ℕ → Fixed
literal m d = milli (pos (m * 1000 / 10 ^ d))

abbrev pub is_nan : Fixed → Bool
is_nan nan = true
is_nan (milli _) = false

abbrev pub fixed : FloatOps
fixed = record {
  Float = Fixed;
  Double = Fixed;
  float_lit = literal;
  double_lit = literal;
  widen = λ x. x;
  narrow = λ x. x;
  is_nan = is_nan;
  flt = lt;
  dlt = lt;
  fadd = lift ◌+ℤ◌;
  fsub = lift ◌-ℤ◌;
  fmul = lift (λ a b. quot_ℕ (a *ℤ b) 1000);
  fdiv = divide;
  roundf = round;
  to_int = truncate;
  of_int = λ n. milli (n *ℤ pos 1000);
}

truncate_between :
    (f : Fixed) (lo hi : ℕ)
    → is_nan f ≡ false
    → lt f (literal lo 0) ≡ false
    → lt (literal hi 0) f ≡ false
    → (pos lo ≤ℤ truncate f) × (truncate f ≤ℤ pos hi)
unfolding quot_ℕ
truncate_between nan lo hi n l h = ground arith
truncate_between (milli (pos n)) lo hi nn l h = ground arith
truncate_between (milli (negsuc n)) lo hi nn l h = ground arith

truncate-literal : (n : ℕ) → truncate (literal n 0) ≡ pos n
unfolding quot_ℕ
truncate-literal n = ground arith

pub fixed_laws : FloatLaws fixed
fixed_laws = record {
  to_int_between = λ f lo hi b n l h. truncate_between f lo hi n l h;
  to_int-lit = λ n b. truncate-literal n;
}
