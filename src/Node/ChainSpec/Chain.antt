-- ===== src/Node/ChainSpec/Chain.antt =====
-- The genesis of the chain that a specification starts: node/src/command.rs and
-- node/src/chain_spec.rs with the runtime API calls of runtime/src/apis.rs.
use Prim.Native.String.{String}
use mathlib.Core.List.{Memᴰ}
use paseo_node.Base.{◌≡◌, refl, none, some, Bytes, Result, ok, inl, inr}
use paseo_node.Base.Outcome.{returns}
use paseo_node.Runtime.Pns.{PnsTypes}
use paseo_node.Runtime.Apis.Types.{ApiTypes}
use paseo_node.Runtime.Apis.Calls.{get_preset}
use paseo_node.Runtime.Apis.Dispatch.{Runtime, call}
use paseo_node.Runtime.Apis.{preset}
use paseo_node.Runtime.Apis.Presets.{IsPresetHelper}
use paseo_node.Runtime.Genesis.{GenesisPatch}
use paseo_node.Runtime.Genesis
use paseo_node.Runtime.Genesis.Laws.{IsWellFormed}
use paseo_node.Runtime.Genesis.Presets.{IsKeyring}
use paseo_node.Runtime.Genesis.Listed.{listed_lem}
use paseo_node.Node.ChainSpec.{BuiltSpec, built, load_spec}
use paseo_node.Node.ChainSpec.Laws.{built_in_ids, load_spec_cases}

module _ {A : ApiTypes} {N : PnsTypes} (R : Runtime A N) where
  open R use {genesis, to_string, preset_helper}

  asked :
      (H : IsPresetHelper genesis to_string preset_helper) (name : String) (b : Bytes) (s : A.State)
      → Genesis.get_preset genesis to_string name ≡ returns (some b)
      → call R (get_preset (some name)) s ≡ returns (some b, s)
  unfolding call preset
  asked H name b s found = rw (H.of_some name (Genesis.get_preset genesis to_string), found) refl

  -- The node builds a specification for `dev`, `local` and the empty argument, and the runtime, in
  -- any state, answers the API call for the preset that it names with the text of a genesis patch
  -- that is well formed, and keeps its state. The helper of frame_support is as documented, the
  -- keyring is the development one, every patch has a text, and there is an embedded runtime.
  pub load_spec-call :
      IsPresetHelper genesis to_string preset_helper
      → IsKeyring genesis
      → ((p : GenesisPatch genesis) → (b : Bytes) × (to_string p ≡ some b))
      → {FileSpec : Type 0} (from_json_file : String → Result FileSpec String)
      → (id : String) (code : Bytes) (s : A.State) → Memᴰ id built_in_ids
      → (spec : BuiltSpec) × (p : GenesisPatch genesis) × (b : Bytes) × (load_spec genesis
            (some code)
            from_json_file
            id
          ≡ ok (built spec))
        × IsWellFormed p
        × (to_string p ≡ some b)
        × (call R (get_preset (some spec.preset_name)) s ≡ returns (some b, s))
  load_spec-call H K written from_json_file id code s m =
      elim (load_spec_cases genesis from_json_file id code none) [
        | inr (other, _) ↦ absurd (other m)
        | inl (_, (spec, loaded, _, listed), _) ↦
            let (p, b, well_formed, text, found) =
              listed_lem genesis K to_string written spec.preset_name listed in
            (spec, p, b, loaded, well_formed, text, asked H spec.preset_name b s found)
      ]
