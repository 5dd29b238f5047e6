-- ===== src/Json/Plain.antt =====
-- An instance of the interface to cJSON that runs, over the fixed-point numbers.
use esp32_s3_hot_tub_base.Base.{ℕ, List, Bool, true, false, Option, none, some, if◌then◌else◌}
use esp32_s3_hot_tub_base.Base.Int.{ℤ, pos, quot_ℕ}
use esp32_s3_hot_tub_base.Base.Text.{String, same_text}
use esp32_s3_hot_tub_base.Float.Fixed.{Fixed, milli}
use esp32_s3_hot_tub_base.Json.Items.{Cjson}

mutual
  pub data Value : Type 0 where
    object : Members → Value
    number : Fixed → Value
    boolean : Bool → Value
    text : String → Value
    bytes : List ℕ → Value

  pub data Members : Type 0 where
    empty : Members
    member : String → Value → Members → Members

abbrev find : String → Members → Option Value
find k empty = none
find k (member j v ms) = let rest = find k ms in if same_text j k then some v else rest

abbrev append : Members → String → Value → Members
append empty k v = member k v empty
append (member j w ms) k v = member j w (append ms k v)

abbrev add : Value → String → Value → Value
add (object ms) k v = object (append ms k v)
add other k v = other

abbrev get : Value → String → Option Value
get (object ms) k = find k ms
get other k = none

abbrev first : Value → Option Value
first (object (member k v ms)) = some v
first other = none

abbrev is_object : Value → Bool
is_object (object ms) = true
is_object other = false

abbrev is_true : Value → Bool
is_true (boolean b) = b
is_true other = false

abbrev is_number : Value → Bool
is_number (number x) = true
is_number other = false

abbrev is_string : Value → Bool
is_string (text s) = true
is_string other = false

abbrev string_of : Value → Option String
string_of (text s) = some s
string_of other = none

abbrev double_of : Value → Fixed
double_of (number x) = x
double_of other = milli (pos 0)

unfoldable pub int_of : Value → ℤ
unfolding quot_ℕ
int_of (number (milli n)) = quot_ℕ n 1000
int_of other = pos 0

abbrev pub plain : Cjson Fixed
plain = record {
  Item = Value;
  get_object_item = get;
  child = first;
  is_object = is_object;
  is_true = is_true;
  is_number = is_number;
  is_string = is_string;
  valuedouble = double_of;
  valueint = int_of;
  valuestring = string_of;
  create_object = object empty;
  add_bool = λ r k b. add r k (boolean b);
  add_number = λ r k x. add r k (number x);
  add_string = λ r k s. add r k (text s);
  add_c_string = λ r k s. add r k (bytes s);
  add_item = add;
}
