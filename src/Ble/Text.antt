-- ===== src/Ble/Text.antt =====
-- components/ble_service/src/ble_service.c: the texts of commands, and how they are compared.
use esp32_s3_hot_tub_base.Base.{
  ℕ, ◌+◌, ◌-◌, Bool, true, false, ◌&&◌, ◌||◌, List, [], ◌∷◌, leb, ◌==◌, if◌then◌else◌,
}

abbrev pub ota_update_text : List ℕ
ota_update_text = b'o' ∷ b't' ∷ b'a' ∷ b'-' ∷ b'u' ∷ b'p' ∷ b'd' ∷ b'a' ∷ b't' ∷ b'e' ∷ []

abbrev pub status_text : List ℕ
status_text = b'S' ∷ b'T' ∷ b'A' ∷ b'T' ∷ b'U' ∷ b'S' ∷ []

abbrev pub status_get_text : List ℕ
status_get_text = b'S' ∷ b'T' ∷ b'A' ∷ b'T' ∷ b'U' ∷ b'S' ∷ 32 ∷ b'G' ∷ b'E' ∷ b'T' ∷ []

abbrev pub get_status_text : List ℕ
get_status_text = b'G' ∷ b'E' ∷ b'T' ∷ 32 ∷ b'S' ∷ b'T' ∷ b'A' ∷ b'T' ∷ b'U' ∷ b'S' ∷ []

abbrev pub status_full_text : List ℕ
status_full_text = b'S' ∷ b'T' ∷ b'A' ∷ b'T' ∷ b'U' ∷ b'S' ∷ 32 ∷ b'F' ∷ b'U' ∷ b'L' ∷ b'L' ∷ []

abbrev pub status_compact_text : List ℕ
status_compact_text =
    b'S' ∷ b'T' ∷ b'A' ∷ b'T' ∷ b'U' ∷ b'S' ∷ 32 ∷ b'C' ∷ b'O' ∷ b'M' ∷ b'P' ∷ b'A' ∷ b'C' ∷ b'T'
    ∷ []

abbrev pub mode_full_text : List ℕ
mode_full_text = b'M' ∷ b'O' ∷ b'D' ∷ b'E' ∷ 32 ∷ b'F' ∷ b'U' ∷ b'L' ∷ b'L' ∷ []

abbrev pub mode_compact_text : List ℕ
mode_compact_text =
    b'M' ∷ b'O' ∷ b'D' ∷ b'E' ∷ 32 ∷ b'C' ∷ b'O' ∷ b'M' ∷ b'P' ∷ b'A' ∷ b'C' ∷ b'T' ∷ []

abbrev pub req_text : List ℕ
req_text = b'r' ∷ b'e' ∷ b'q' ∷ []

abbrev pub status_command : List ℕ
status_command =
    b's' ∷ b'y' ∷ b's' ∷ b't' ∷ b'e' ∷ b'm' ∷ b'.' ∷ b's' ∷ b't' ∷ b'a' ∷ b't' ∷ b'u' ∷ b's' ∷ b'.'
    ∷ b'g' ∷ b'e' ∷ b't' ∷ []

abbrev pub github_command : List ℕ
github_command =
    b'o' ∷ b't' ∷ b'a' ∷ b'.' ∷ b'm' ∷ b'a' ∷ b'n' ∷ b'a' ∷ b'g' ∷ b'e' ∷ b'r' ∷ b'.' ∷ b'u' ∷ b'p'
    ∷ b'd' ∷ b'a' ∷ b't' ∷ b'e' ∷ b'.' ∷ b'g' ∷ b'i' ∷ b't' ∷ b'h' ∷ b'u' ∷ b'b' ∷ []

abbrev pub manifest_command : List ℕ
manifest_command =
    b'o' ∷ b't' ∷ b'a' ∷ b'.' ∷ b'm' ∷ b'a' ∷ b'n' ∷ b'a' ∷ b'g' ∷ b'e' ∷ b'r' ∷ b'.' ∷ b'u' ∷ b'p'
    ∷ b'd' ∷ b'a' ∷ b't' ∷ b'e' ∷ b'.' ∷ b'm' ∷ b'a' ∷ b'n' ∷ b'i' ∷ b'f' ∷ b'e' ∷ b's' ∷ b't' ∷ []

abbrev pub credentials_command : List ℕ
credentials_command =
    b'w' ∷ b'i' ∷ b'f' ∷ b'i' ∷ b'.' ∷ b'c' ∷ b'r' ∷ b'e' ∷ b'd' ∷ b'e' ∷ b'n' ∷ b't' ∷ b'i' ∷ b'a'
    ∷ b'l' ∷ b's' ∷ b'.' ∷ b's' ∷ b'e' ∷ b't' ∷ []

abbrev pub debug_ota_url : List ℕ
debug_ota_url =
    b'h' ∷ b't' ∷ b't' ∷ b'p' ∷ b's' ∷ b':' ∷ b'/' ∷ b'/' ∷ b'r' ∷ b'a' ∷ b'w' ∷ b'.' ∷ b'g' ∷ b'i'
    ∷ b't' ∷ b'h' ∷ b'u' ∷ b'b' ∷ b'u' ∷ b's' ∷ b'e' ∷ b'r' ∷ b'c' ∷ b'o' ∷ b'n' ∷ b't' ∷ b'e'
    ∷ b'n' ∷ b't' ∷ b'.' ∷ b'c' ∷ b'o' ∷ b'm' ∷ b'/' ∷ b'N' ∷ b'i' ∷ b'n' ∷ b'o' ∷ b'6' ∷ b'7'
    ∷ b'/' ∷ b'E' ∷ b's' ∷ b'p' ∷ b'3' ∷ b'2' ∷ b'-' ∷ b'S' ∷ b'3' ∷ b'-' ∷ b'H' ∷ b'o' ∷ b't'
    ∷ b'T' ∷ b'u' ∷ b'b' ∷ b'-' ∷ b'B' ∷ b'a' ∷ b's' ∷ b'e' ∷ b'/' ∷ b'm' ∷ b'a' ∷ b'i' ∷ b'n'
    ∷ b'/' ∷ b'f' ∷ b'i' ∷ b'r' ∷ b'm' ∷ b'w' ∷ b'a' ∷ b'r' ∷ b'e' ∷ b'/' ∷ b'h' ∷ b'o' ∷ b't'
    ∷ b'_' ∷ b't' ∷ b'u' ∷ b'b' ∷ b'_' ∷ b'c' ∷ b'o' ∷ b'n' ∷ b't' ∷ b'r' ∷ b'o' ∷ b'l' ∷ b'l'
    ∷ b'e' ∷ b'r' ∷ b'.' ∷ b'b' ∷ b'i' ∷ b'n' ∷ []

abbrev pub is_blank : ℕ → Bool
is_blank c = c == 32 || c == 9 || c == 13 || c == 10

unfoldable pub trim_start : List ℕ → List ℕ
trim_start [] = []
trim_start (c ∷ cs) = let rest = trim_start cs in if is_blank c then rest else c ∷ cs

unfoldable pub trim_end : List ℕ → List ℕ
trim_end [] = []
trim_end (c ∷ cs) =
    let rest = trim_end cs in
    elim rest [ [] ↦ if is_blank c then [] else c ∷ [] | d ∷ ds ↦ c ∷ (d ∷ ds) ]

-- `trim_in_place`, of a string without its terminator.
unfoldable pub trim_in_place : List ℕ → List ℕ
unfolding trim_start trim_end
trim_in_place s = trim_end (trim_start s)

abbrev pub lower : ℕ → ℕ
lower c = if leb b'A' c && leb c b'Z' then c - b'A' + b'a' else c

-- `str_equals_ignore_case`, of strings that are not NULL.
unfoldable pub str_equals_ignore_case : List ℕ → List ℕ → Bool
str_equals_ignore_case [] [] = true
str_equals_ignore_case [] (b ∷ bs) = false
str_equals_ignore_case (a ∷ rest) [] = false
str_equals_ignore_case (a ∷ rest) (b ∷ bs) = lower a == lower b && str_equals_ignore_case rest bs
