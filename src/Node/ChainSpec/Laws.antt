-- ===== src/Node/ChainSpec/Laws.antt =====
-- Which specification an argument loads, and that the runtime has its preset.
use Prim.Native.String.{String}
use mathlib.Core.List.{Memᴰ}
use text.Mathlib.TextEquality.{eq_iff}
use text.Mathlib.Text.{◌==◌ as str_eq}
use paseo_node.Base.{
  ◌≡◌, refl, Option, none, some, List, [], ◌∷◌, Bytes, Bool-cases, inl, inr, ◌⊎◌, Result, ok, err,
  map_ok, false,
}
use paseo_node.Base.Outcome.{returns}
use paseo_node.Runtime.Genesis.{GenesisTypes, GenesisPatch, get_preset, preset_names}
use paseo_node.Runtime.Genesis.Presets.{IsKeyring, get_preset_total}
use paseo_node.Node.ChainSpec.{
  BuiltSpec, ChainSpec, built, from_file, development, local, development_chain_spec,
  local_chain_spec, load_spec,
}

-- The arguments of `--chain` that name no file.
abbrev pub built_in_ids : List String
built_in_ids = "dev" ∷ "" ∷ "local" ∷ []

module _ (T : GenesisTypes) {FileSpec : Type 0}
    (from_json_file : String → Result FileSpec String) where
  -- A built specification names one of the runtime's presets and carries the embedded runtime.
  abbrev pub IsBuilt : Bytes → Result (ChainSpec FileSpec) String → Type 0
  IsBuilt code r =
      (spec : BuiltSpec) × (r ≡ ok (built spec))
      × (spec.code ≡ code)
      × Memᴰ spec.preset_name (preset_names T)

  -- The three arguments that name no file, and the others.
  abbrev pub IsLoaded : String → Bytes → Option Bytes → Type 0
  IsLoaded id code wasm =
      (Memᴰ id built_in_ids
        × IsBuilt code (load_spec T (some code) from_json_file id)
        × (load_spec T none from_json_file id ≡ err "Development wasm not available"))
      ⊎ (¬ (Memᴰ id built_in_ids)
          × (load_spec T wasm from_json_file id ≡ map_ok from_file (from_json_file id)))

  not-mem-built_in_ids :
      (id : String)
      → str_eq id "dev" ≡ false
      → str_eq id "" ≡ false
      → str_eq id "local" ≡ false
      → ¬ (Memᴰ id built_in_ids)
  not-mem-built_in_ids id a b c (Memᴰ.head e) = cc ((eq_iff id "dev").1 e)
  not-mem-built_in_ids id a b c (Memᴰ.tail (Memᴰ.head e)) = cc ((eq_iff id "").1 e)
  not-mem-built_in_ids id a b c (Memᴰ.tail (Memᴰ.tail (Memᴰ.head e))) = cc ((eq_iff id "local").1 e)
  not-mem-built_in_ids id a b c (Memᴰ.tail (Memᴰ.tail (Memᴰ.tail m))) = elim m [ ]

  abbrev development_spec : Bytes → BuiltSpec
  development_spec code = record {
    code = code;
    name = "Development";
    id = "dev";
    chain_type = development;
    preset_name = T.dev_runtime_preset;
  }

  abbrev local_spec : Bytes → BuiltSpec
  local_spec code = record {
    code = code;
    name = "Local Testnet";
    id = "local_testnet";
    chain_type = local;
    preset_name = T.local_testnet_runtime_preset;
  }

  -- For `dev`, `local` and the empty argument a specification is built, with the embedded runtime
  -- and one of the runtime's presets, or the missing runtime is the error; any other argument is
  -- the path of a file, whose specification or error is the result, whether or not there is an
  -- embedded runtime.
  pub load_spec_cases : (id : String) (code : Bytes) (wasm : Option Bytes) → IsLoaded id code wasm
  unfolding load_spec preset_names development_chain_spec local_chain_spec
  load_spec_cases id code wasm = elim (Bool-cases (str_eq id "dev")) [
    | inl dev ↦ inl (
      Memᴰ.head ((eq_iff _ _).0 dev),
      (development_spec code, rw dev refl, refl, Memᴰ.head refl),
      rw dev refl,
    )
    | inr not_dev ↦ elim (Bool-cases (str_eq id "")) [
      | inl empty ↦ inl (
        Memᴰ.tail (Memᴰ.head ((eq_iff _ _).0 empty)),
        (local_spec code, rw (not_dev, empty) refl, refl, Memᴰ.tail (Memᴰ.head refl)),
        rw (not_dev, empty) refl,
      )
      | inr not_empty ↦ elim (Bool-cases (str_eq id "local")) [
        | inl is_local ↦ inl (
          Memᴰ.tail (Memᴰ.tail (Memᴰ.head ((eq_iff _ _).0 is_local))),
          (
            local_spec code,
            rw (not_dev, not_empty, is_local) refl,
            refl,
            Memᴰ.tail (Memᴰ.head refl),
          ),
          rw (not_dev, not_empty, is_local) refl,
        )
        | inr not_local ↦ inr (
          not-mem-built_in_ids id not_dev not_empty not_local,
          rw (not_dev, not_empty, not_local) refl,
        )
      ]
    ]
  ]

  -- The runtime answers the preset of a specification that was built with a text, so that the
  -- genesis can be made: a look-up of it neither panics nor finds nothing.
  load_spec-get_preset :
      (to_string : GenesisPatch T → Option Bytes)
      → IsKeyring T
      → ((p : GenesisPatch T) → (b : Bytes) × (to_string p ≡ some b))
      → (id : String) (code : Bytes) → Memᴰ id built_in_ids
      → (spec : BuiltSpec) × (load_spec T (some code) from_json_file id ≡ ok (built spec))
        × ((b : Bytes) × (get_preset T to_string spec.preset_name ≡ returns (some b)))
  load_spec-get_preset to_string K written id code m = elim (load_spec_cases id code none) [
    | inr (other, _) ↦ absurd (other m)
    | inl (_, (spec, loaded, _, listed), _) ↦
        elim (get_preset_total T K to_string written spec.preset_name) [
          | inl (b, text, _) ↦ (spec, loaded, (b, text))
          | inr (_, unlisted) ↦ absurd (unlisted listed)
        ]
  ]
