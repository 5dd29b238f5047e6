-- ===== src/Json/Rpc.antt =====
-- components/json_service/src/json_service.c: `json_service_parse_rpc_envelope`, over the interface to
-- cJSON. What the parser makes of the text is an argument.
use esp32_s3_hot_tub_base.Base.{
  ℕ, ◌-◌, ◌%◌, ◌^◌, ◌≡◌, refl, ◌⊎◌, Bool, true, Option, none, some, inl, inr, Bool-cases, List,
  if◌then◌else◌,
}
use esp32_s3_hot_tub_base.Base.Int.{ℤ, pos, negsuc}
use esp32_s3_hot_tub_base.Base.Text.{String, same_text}
use esp32_s3_hot_tub_base.Json.Items.{Cjson}
use esp32_s3_hot_tub_base.Json.Registry.{Entry, string_member, run_command, dispatcher_core0}

-- `rpc_type_t`
pub data RpcType : Type 0 where
  type_unknown type_req type_res type_evt type_pub : RpcType

-- The type that a text names.
abbrev pub type_of_text : String → RpcType
type_of_text t =
    if same_text t "req"
    then type_req
    else (if same_text t "res"
        then type_res
        else (if same_text t "evt" then type_evt else type_unknown))

-- `(uint32_t)n`
abbrev pub to_uint32 : ℤ → ℕ
to_uint32 (pos n) = n % 2 ^ 32
to_uint32 (negsuc n) = 2 ^ 32 - 1 - n % 2 ^ 32

-- What is stored behind the four pointers, none of them NULL: `none` where nothing is. The copy of the
-- command and of the parameters may be NULL.
pub record RpcEnvelope (Item : Type 0) : Type 0 where
  pub out_type : Option RpcType
  pub out_id : Option ℕ
  pub out_cmd : Option (Option String)
  pub out_params : Option (Option Item)

module _ {D : Type 0} (js : Cjson D) where
  -- The member "id" where it is a number.
  unfoldable pub id_member : js.Item → Option ℕ
  id_member root = elim (js.get_object_item root "id") [
    | none ↦ none
    | some item ↦ if js.is_number item then some (to_uint32 (js.valueint item)) else none
  ]

  -- What is stored of a message, by whether a string can be copied and by the copy of an item.
  unfoldable pub rpc_envelope : Bool → (js.Item → Option js.Item) → js.Item → RpcEnvelope js.Item
  unfolding string_member id_member
  rpc_envelope copied duplicate root = record {
    out_type = elim (string_member js root "type") [ none ↦ none | some t ↦ some (type_of_text t) ];
    out_id = id_member root;
    out_cmd = elim (string_member js root "cmd") [
      | none ↦ none
      | some t ↦ some (if copied then some t else none)
    ];
    out_params = elim (js.get_object_item root "params") [
      | none ↦ none
      | some item ↦ some (duplicate item)
    ];
  }

  -- `json_service_parse_rpc_envelope`, of what the parser makes of the text.
  unfoldable pub parse_rpc_envelope :
      Bool → (js.Item → Option js.Item) → Option js.Item → Option (js.Item × RpcEnvelope js.Item)
  unfolding rpc_envelope
  parse_rpc_envelope copied duplicate none = none
  parse_rpc_envelope copied duplicate (some root) = some (root, rpc_envelope copied duplicate root)

  module _ {S : Type 0} (registry : List (Entry S js.Item)) (root : js.Item) (s : S) where
    type_and_command :
        (type_str cmd_str : Option String)
        → let e : S × js.Item = elim type_str [
          | none ↦ (s, root)
          | some t ↦ elim cmd_str [
            | none ↦ (s, root)
            | some c ↦ if same_text t "req" then run_command registry c root s else (s, root)
          ]
        ] in
          let type' : Option RpcType = elim type_str [
            | none ↦ none
            | some t ↦ some (type_of_text t)
          ] in
          let cmd' : Option (Option String) = elim cmd_str [
            | none ↦ none
            | some c ↦ some (some c)
          ] in
          (e ≡ (s, root))
          ⊎ ((cmd : String) × (type' ≡ some type_req)
              × (cmd' ≡ some (some cmd))
              × (e ≡ run_command registry cmd root s))
    type_and_command none cmd_str = inl refl
    type_and_command (some t) none = inl refl
    type_and_command (some t) (some c) = elim (Bool-cases (same_text t "req")) [
      | inl e ↦ inr (c, rw e refl, refl, rw e refl)
      | inr e ↦ inl (rw e refl)
    ]

    -- A message that the dispatcher does not ignore is one that the parser takes for a request with
    -- the command that is run.
    dispatcher-parser :
        (duplicate : js.Item → Option js.Item)
        → let e = rpc_envelope true duplicate root in
          let d = dispatcher_core0 js registry root s in
          (d ≡ (s, root))
          ⊎ ((cmd : String) × (e.out_type ≡ some type_req)
              × (e.out_cmd ≡ some (some cmd))
              × (d ≡ run_command registry cmd root s))
    unfolding rpc_envelope dispatcher_core0
    dispatcher-parser duplicate =
        type_and_command (string_member js root "type") (string_member js root "cmd")
