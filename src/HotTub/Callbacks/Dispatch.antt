-- ===== src/HotTub/Callbacks/Dispatch.antt =====
-- What the dispatcher does with the registered commands of the hot tub.
use esp32_s3_hot_tub_base.Base.{
  ℕ, ◌≡◌, refl, ◌∙◌, ap, sym, subst, Bool, true, false, not, ◌&&◌, List, [], ◌∷◌, ◌++◌, map, All,
  arith,
}
use esp32_s3_hot_tub_base.Base.Text.{String, same_text, same_text_iff}
use esp32_s3_hot_tub_base.Esp.{ok}
use esp32_s3_hot_tub_base.Float.Ops.{FloatOps}
use esp32_s3_hot_tub_base.Json.Items.{Cjson}
use esp32_s3_hot_tub_base.Json.Registry.{Entry, register_command, run_command}
use esp32_s3_hot_tub_base.HotTub.State.{HotTub}
use esp32_s3_hot_tub_base.HotTub.Persist.{System}
use esp32_s3_hot_tub_base.HotTub.Callbacks.Table.{Callback, hot_tub_callbacks, register_callbacks}

-- No entry of the list has this command.
abbrev pub is_new {ℓ} : {A : Type ℓ} → String → List (String × A) → Bool
is_new c [] = true
is_new c ((d, a) ∷ cs) = not (same_text c d) && is_new c cs

abbrev pub is_distinct {ℓ} : {A : Type ℓ} → List (String × A) → Bool
is_distinct [] = true
is_distinct ((c, a) ∷ cs) = is_new c cs && is_distinct cs

append_nil {ℓ} : {A : Type ℓ} (xs : List A) → xs ++ [] ≡ xs
append_nil [] = refl
append_nil (x ∷ xs) = ap (◌∷◌ x) (append_nil xs)

append_one {ℓ} :
    {A : Type ℓ} (xs : List A) (a : A) (ys : List A) → (xs ++ (a ∷ [])) ++ ys ≡ xs ++ (a ∷ ys)
append_one [] a ys = refl
append_one (x ∷ xs) a ys = ap (◌∷◌ x) (append_one xs a ys)

module _ (fl : FloatOps) (js : Cjson fl.Double) where
  open fl use {Float}
  open js use {Item}

  abbrev pub entry : String × Callback fl js → Entry (System Float) Item
  entry (c, f) = record { cmd_string = c; callback = f; target_core = 0 }

  pub register_callbacks-all :
      (cs : List (String × Callback fl js)) (registry : List (Entry (System Float) Item))
      → register_callbacks fl js (λ n. true) cs registry ≡ (registry ++ map entry cs, ok)
  unfolding register_callbacks register_command
  register_callbacks-all [] registry = ap (λ r. (r, ok)) (sym (append_nil registry))
  register_callbacks-all ((c, f) ∷ cs) registry =
      register_callbacks-all cs (registry ++ (entry (c, f) ∷ []))
      ∙ ap (λ r. (r, ok)) (append_one registry (entry (c, f)) (map entry cs))

  run_command-skip :
      (d : String) (f : Callback fl js) (xs ys : List (String × Callback fl js)) (root : Item)
      (s : System Float)
      → is_new d ys ≡ true
      → All (λ c. run_command (map entry xs) c.0 root s ≡ c.1 root s) ys
      → All (λ c. run_command (map entry ((d, f) ∷ xs)) c.0 root s ≡ c.1 root s) ys
  unfolding run_command
  run_command-skip d f xs [] root s n h = tt
  run_command-skip d f xs ((c, g) ∷ ys) root s n h =
      let other : same_text c d ≡ false = ground (arith, same_text_iff c d, same_text_iff d c) in
      (ground (arith, h.0), run_command-skip d f xs ys root s (ground arith) h.1)

  -- Of a table with distinct commands, each command runs its own callback.
  pub run_command-first :
      (cs : List (String × Callback fl js)) (root : Item) (s : System Float)
      → is_distinct cs ≡ true
      → All (λ c. run_command (map entry cs) c.0 root s ≡ c.1 root s) cs
  unfolding run_command
  run_command-first [] root s d = tt
  run_command-first ((c, f) ∷ cs) root s d = (
    ground (arith, same_text_iff c c),
    run_command-skip c f cs cs root s (ground arith) (run_command-first cs root s (ground arith)),
  )

  -- The registry that the registration of the whole table leaves in an empty one.
  abbrev pub registered : Bool → HotTub Float → List ℕ → List (Entry (System Float) Item)
  registered taken buffer now =
      (register_callbacks fl js (λ n. true) (hot_tub_callbacks fl js taken buffer now) []).0

  pub registered-lem :
      (taken : Bool) (buffer : HotTub Float) (now : List ℕ)
      → registered taken buffer now ≡ map entry (hot_tub_callbacks fl js taken buffer now)
  registered-lem taken buffer now =
      ap (λ r. r.0) (register_callbacks-all (hot_tub_callbacks fl js taken buffer now) [])

  hot_tub_callbacks-distinct :
      (taken : Bool) (buffer : HotTub Float) (now : List ℕ)
      → is_distinct (hot_tub_callbacks fl js taken buffer now) ≡ true
  unfolding hot_tub_callbacks
  hot_tub_callbacks-distinct taken buffer now = refl

  -- After the registration of the table in an empty registry, with memory for each entry, each of
  -- its 35 commands runs its own callback.
  pub registered_command_runs :
      (taken : Bool) (buffer : HotTub Float) (now : List ℕ) (root : Item) (s : System Float)
      → All
          (λ c. run_command (registered taken buffer now) c.0 root s ≡ c.1 root s)
          (hot_tub_callbacks fl js taken buffer now)
  registered_command_runs taken buffer now root s =
      let t = hot_tub_callbacks fl js taken buffer now in
      subst (λ r. All (λ c. run_command r c.0 root s ≡ c.1 root s) t)
        (sym (registered-lem taken buffer now))
        (run_command-first t root s (hot_tub_callbacks-distinct taken buffer now))
