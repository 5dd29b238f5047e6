-- ===== src/Ota/Urls.antt =====
-- components/ota_manager/src/ota_manager.c: the partition that an update writes, and the URL of its
-- image. A string has no terminator.
use esp32_s3_hot_tub_base.Base.{
  ℕ, ◌+◌, Bool, true, false, ◌&&◌, List, [], ◌∷◌, ◌++◌, Option, none, some, take, ◌==◌,
  if◌then◌else◌,
}
use esp32_s3_hot_tub_base.Esp.{EspErr, ok, no_mem, invalid_arg}
use esp32_s3_hot_tub_base.WebServer.Files.{Label, storage_0, storage_1}

-- The application partition that `esp_ota_get_next_update_partition` returns.
pub data AppPartition : Type 0 where
  ota_0 ota_1 other_app : AppPartition

-- `get_active_storage_label`, by the application that runs.
unfoldable pub get_active_storage_label : Option AppPartition → Label
get_active_storage_label (some ota_1) = storage_1
get_active_storage_label _ = storage_0

-- `storage_label_for_next_app`
unfoldable pub storage_label_for_next_app : Option AppPartition → Option Label
storage_label_for_next_app none = none
storage_label_for_next_app (some ota_1) = some storage_1
storage_label_for_next_app (some ota_0) = some storage_0
storage_label_for_next_app (some other_app) = none

-- The characters of a label, and of its image.
abbrev pub label_text : Label → List ℕ
label_text l =
    b's'
    ∷ b't'
    ∷ b'o'
    ∷ b'r'
    ∷ b'a'
    ∷ b'g'
    ∷ b'e'
    ∷ b'_'
    ∷ (elim l [ storage_0 ↦ b'0' | storage_1 ↦ b'1' ])
    ∷ []

abbrev pub image_name : Label → List ℕ
image_name l = label_text l ++ (b'.' ∷ b'b' ∷ b'i' ∷ b'n' ∷ [])

abbrev pub firmware_name : List ℕ
firmware_name =
    b'h' ∷ b'o' ∷ b't' ∷ b'_' ∷ b't' ∷ b'u' ∷ b'b' ∷ b'_' ∷ b'c' ∷ b'o' ∷ b'n' ∷ b't' ∷ b'r' ∷ b'o'
    ∷ b'l' ∷ b'l' ∷ b'e' ∷ b'r' ∷ b'.' ∷ b'b' ∷ b'i' ∷ b'n' ∷ []

unfoldable pub has_prefix : List ℕ → List ℕ → Bool
has_prefix [] text = true
has_prefix (b ∷ bs) [] = false
has_prefix (b ∷ bs) (c ∷ cs) = b == c && has_prefix bs cs

-- `strstr(text, needle)`: how many bytes stand before the first occurrence.
unfoldable pub strstr : List ℕ → List ℕ → Option ℕ
unfolding has_prefix
strstr [] needle = if has_prefix needle [] then some 0 else none
strstr (c ∷ cs) needle =
    let rest = strstr cs needle in
    if has_prefix needle (c ∷ cs) then some 0 else elim rest [ none ↦ none | some n ↦ some (n + 1) ]

-- `strrchr(text, '/')`, as how many bytes the text has up to it.
unfoldable pub after_slash : List ℕ → Option ℕ
after_slash [] = none
after_slash (c ∷ cs) =
    let rest = after_slash cs in
    elim rest [ some n ↦ some (n + 1) | none ↦ if c == b'/' then some 1 else none ]

-- `derive_storage_image_url`, by whether there is memory for it.
unfoldable pub derive_storage_image_url : Bool → List ℕ → Label → Option (List ℕ)
unfolding strstr after_slash
derive_storage_image_url has_memory url l =
    let prefix : Option ℕ = elim (strstr url firmware_name) [
      | some n ↦ some n
      | none ↦ after_slash url
    ] in
    elim prefix [
      | none ↦ none
      | some n ↦ if has_memory then some (take n url ++ image_name l) else none
    ]

-- The URL that an update downloads its image from: the one that is given if it names the partition,
-- and otherwise one beside the firmware. Whether there is memory is asked for each copy.
unfoldable pub storage_image_url : Bool → Bool → List ℕ → List ℕ → Label → EspErr × List ℕ
unfolding derive_storage_image_url strstr
storage_image_url has_memory has_memory' url storage_url l =
    let to_use : Option (List ℕ) = elim storage_url [
      | [] ↦ derive_storage_image_url has_memory url l
      | c ∷ cs ↦ some (c ∷ cs)
    ] in
    elim to_use [
      | none ↦ (invalid_arg, [])
      | some u ↦
          let copy : Option (List ℕ) = elim (strstr u (label_text l)) [
            | some n ↦ if has_memory' then some u else none
            | none ↦ derive_storage_image_url has_memory' url l
          ] in
          elim copy [ none ↦ (no_mem, []) | some v ↦ (ok, v) ]
    ]
