-- ===== src/Json/Items.antt =====
-- The interface to cJSON: an object's members, the tests of an item's type, the values read from it,
-- and the building of objects (`add_c_string` adds the C string that starts at an array of bytes). `valuedouble` and `valueint` may be read from an item of any type.
use esp32_s3_hot_tub_base.Base.{ℕ, List, Bool, Option}
use esp32_s3_hot_tub_base.Base.Int.{ℤ}
use esp32_s3_hot_tub_base.Base.Text.{String}

pub record Cjson (Double : Type 0) : Type 1 where
  pub Item : Type 0
  pub get_object_item : Item → String → Option Item
  pub child : Item → Option Item
  pub is_object : Item → Bool
  pub is_true : Item → Bool
  pub is_number : Item → Bool
  pub is_string : Item → Bool
  pub valuedouble : Item → Double
  pub valueint : Item → ℤ
  pub valuestring : Item → Option String
  pub create_object : Item
  pub add_bool : Item → String → Bool → Item
  pub add_number : Item → String → Double → Item
  pub add_string : Item → String → String → Item
  pub add_c_string : Item → String → List ℕ → Item
  pub add_item : Item → String → Item → Item
