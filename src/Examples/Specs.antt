-- ===== src/Examples/Specs.antt =====
-- Specifications over the keyring of six keys, with files that cannot be read.
use Prim.Native.String.{String}
use mathlib.Core.List.{Memᴰ}
use paseo_node.Base.{◌≡◌, refl, none, some, [], ◌∷◌, Bytes, Result, ok, err}
use paseo_node.Base.Outcome.{returns}
use paseo_node.Runtime.Genesis.{GenesisPatch}
use paseo_node.Runtime.Genesis.Laws.{IsWellFormed}
use paseo_node.Runtime.Apis.Calls.{get_preset}
use paseo_node.Runtime.Apis.Dispatch.{call}
use paseo_node.Node.ChainSpec.{
  BuiltSpec, built, load_spec, development_chain_spec, local_chain_spec,
}
use paseo_node.Node.ChainSpec.Chain.{load_spec-call}
use paseo_node.Examples.Apis.{look_up-IsPresetHelper}
use paseo_node.Examples.Calls.{small}
use paseo_node.Examples.Genesis.{toy, toy-IsKeyring}

abbrev unreadable : String → Result (Unit {0}) String
unreadable path = err "No such file or directory"

missing_runtime : load_spec toy none unreadable "" ≡ err "Development wasm not available"
unfolding load_spec development_chain_spec local_chain_spec
missing_runtime = refl

a_path : load_spec toy none unreadable "Local" ≡ err "No such file or directory"
unfolding load_spec
a_path = refl

load_spec-call_example :
    (spec : BuiltSpec) × (p : GenesisPatch toy) × (b : Bytes) × (load_spec toy
        (some (1 ∷ []))
        unreadable
        "dev"
      ≡ ok (built spec))
    × IsWellFormed p
    × (small.to_string p ≡ some b)
    × (call small (get_preset (some spec.preset_name)) 4 ≡ returns (some b, 4))
load_spec-call_example =
    load_spec-call small look_up-IsPresetHelper toy-IsKeyring (λ p. ([], refl)) unreadable "dev"
      (1 ∷ []) 4 (Memᴰ.head refl)
