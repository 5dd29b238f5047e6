-- ===== src/Base/Text.antt =====
-- C strings that are only compared as a whole: `strcmp(a, b) == 0`.
use esp32_s3_hot_tub_base.Base.{◌≡◌, ◌↔◌, Bool, true}
use text.Mathlib.Text
use text.Mathlib.TextEquality.{eq_iff}
pub use Prim.Native.String.{String}

abbrev pub same_text : String → String → Bool
same_text a b = Text.◌==◌ a b

pub same_text_iff : (a b : String) → (same_text a b ≡ true) ↔ (a ≡ b)
same_text_iff a b = eq_iff a b
