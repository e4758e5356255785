-- ===== src/Examples/Configs.antt =====
-- Builds that a feature asks for.
use Prim.Native.String.{String}
use paseo_node.Runtime.Constants.{unit}
use paseo_node.Runtime.Features.Wasm.{
  WasmBuild, with_metadata_hash, no_build, mains, includes_wasm, IsRelease, mains_lem,
}
use paseo_node.Base.{ℕ, ◌^◌, ◌≢◌, [], ◌∷◌, ◌^◌, ◌≡◌, ◌↔◌, refl, Bool, true, false, [], ◌∷◌}
use paseo_node.Runtime.Features.{Build, Feature, std, production, guard, config_resolves}

abbrev std_production : Feature → Bool
std_production std = true
std_production production = true
std_production _ = false

-- `--no-default-features --features std,production`
abbrev production_build : Build
production_build = record {
  requested = std_production;
  default_features = false;
  test_utils_elsewhere = false;
}

passes_guard : guard production_build ≡ true
unfolding guard
passes_guard = refl

names_a_mock : config_resolves production_build ≡ false
unfolding config_resolves
names_a_mock = refl

mains_lem_example :
    (main : WasmBuild) × (mains production_build ≡ main ∷ [])
    × ((main ≢ no_build) ↔ (includes_wasm production_build ≡ true))
    × (((symbol : String) × (decimals : ℕ) × (main ≡ with_metadata_hash symbol decimals)
          × (10 ^ decimals ≡ unit))
        ↔ ((includes_wasm production_build ≡ true) × IsRelease production_build))
mains_lem_example = mains_lem production_build
