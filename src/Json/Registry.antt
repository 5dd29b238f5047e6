-- ===== src/Json/Registry.antt =====
-- components/json_service/src/json_service.c: the registry of commands and the dispatcher. A
-- callback is a function of the message and of the state that it may change.
use esp32_s3_hot_tub_base.Base.{
  ℕ, Bool, true, false, List, [], ◌∷◌, ◌++◌, Option, none, some, ◌==◌, if◌then◌else◌,
}
use esp32_s3_hot_tub_base.Base.Text.{String, same_text}
use esp32_s3_hot_tub_base.Json.Items.{Cjson}

-- `json_command_entry_t`, for a state `S`.
pub record Entry (S Item : Type 0) : Type 0 where
  pub cmd_string : String
  pub callback : Item → S → S × Item
  pub target_core : ℕ

module _ {S Item : Type 0} where
  -- `json_service_register_command`, by whether the array could grow.
  unfoldable pub register_command :
      Bool → String → (Item → S → S × Item) → ℕ → List (Entry S Item) → List (Entry S Item) × Bool
  register_command grown cmd callback core registry =
      if grown
      then (
        registry ++ (record { cmd_string = cmd; callback = callback; target_core = core } ∷ []),
        true,
      )
      else (registry, false)

  -- The loop of the dispatcher: the first entry with the command, run if it is for core 0.
  unfoldable pub run_command : List (Entry S Item) → String → Item → S → S × Item
  run_command [] cmd root s = (s, root)
  run_command (e ∷ es) cmd root s =
      let rest = run_command es cmd root s in
      if same_text cmd e.cmd_string
      then (if e.target_core == 0 then e.callback root s else (s, root))
      else rest

-- The text of a member that is a string.
unfoldable pub string_member : {D : Type 0} (js : Cjson D) → js.Item → String → Option String
string_member js root name = elim (js.get_object_item root name) [
  | none ↦ none
  | some item ↦ if js.is_string item then js.valuestring item else none
]

-- `json_service_dispatcher_core0` of a message that is not NULL.
unfoldable pub dispatcher_core0 :
    {D S : Type 0} (js : Cjson D) → List (Entry S js.Item) → js.Item → S → S × js.Item
unfolding string_member run_command
dispatcher_core0 js registry root s = elim (string_member js root "type") [
  | none ↦ (s, root)
  | some type_str ↦ elim (string_member js root "cmd") [
    | none ↦ (s, root)
    | some cmd_str ↦
        if same_text type_str "req" then run_command registry cmd_str root s else (s, root)
  ]
]
