-- ===== src/Runtime/Genesis/Listed.antt =====
-- The presets that runtime/src/genesis_config_presets.rs lists, by their names.
use Prim.Native.String.{String}
use mathlib.Core.List.{Memᴰ}
use text.Mathlib.TextEquality.{eq_iff}
use text.Mathlib.Text.{◌==◌ as str_eq}
use paseo_node.Base.{◌≡◌, true, false, Option, some, Bytes, Bool-cases, inl, inr}
use paseo_node.Base.Outcome.{returns}
use paseo_node.Runtime.Genesis.{GenesisTypes, GenesisPatch, get_preset, preset_names}
use paseo_node.Runtime.Genesis.Laws.{IsWellFormed}
use paseo_node.Runtime.Genesis.Presets.{IsKeyring, presets-IsWellFormed}

module _ (T : GenesisTypes) (K : IsKeyring T) (to_string : GenesisPatch T → Option Bytes)
    (written : (p : GenesisPatch T) → (b : Bytes) × (to_string p ≡ some b)) where
  -- The text of a well-formed patch is what a name looks up.
  abbrev pub FindsWellFormed : String → Type 0
  FindsWellFormed id =
      (p : GenesisPatch T) × (b : Bytes) × IsWellFormed p
      × (to_string p ≡ some b)
      × (get_preset T to_string id ≡ returns (some b))

  of_development : (id : String) → str_eq id T.dev_runtime_preset ≡ true → FindsWellFormed id
  of_development id dev =
      let (p, made, well_formed) = (presets-IsWellFormed T K).0 in
      let (b, text) = written p in
      (p, b, well_formed, text, unfold get_preset in rw (dev, made, text))

  of_local :
      (id : String)
      → str_eq id T.dev_runtime_preset ≡ false
      → str_eq id T.local_testnet_runtime_preset ≡ true
      → FindsWellFormed id
  of_local id not_dev is_local =
      let (p, made, well_formed, _) = (presets-IsWellFormed T K).1 in
      let (b, text) = written p in
      (p, b, well_formed, text, unfold get_preset in rw (not_dev, is_local, made, text))

  -- Each listed name looks up the text of a well-formed patch.
  pub listed_lem : (id : String) → Memᴰ id (preset_names T) → FindsWellFormed id
  unfolding preset_names
  listed_lem id m = elim (Bool-cases (str_eq id T.dev_runtime_preset)) [
    | inl dev ↦ of_development id dev
    | inr not_dev ↦ elim m [
      | Memᴰ.head e ↦ cc ((eq_iff id T.dev_runtime_preset).1 e)
      | Memᴰ.tail (Memᴰ.head e) ↦ of_local id not_dev ((eq_iff _ _).1 e)
      | Memᴰ.tail (Memᴰ.tail n) ↦ elim n [ ]
    ]
  ]
