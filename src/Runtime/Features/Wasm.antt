-- ===== src/Runtime/Features/Wasm.antt =====
-- The build script runtime/build.rs, and the binary that runtime/src/lib.rs includes.
use Prim.Native.String.{String}
use mathlib.Core.Bool.{false≢true}
use paseo_node.Base.{
  ℕ, ◌^◌, ◌≡◌, ◌≢◌, ◌↔◌, ◌++◌, ◌⊎◌, refl, Bool, true, false, not, ◌&&◌, List, [], ◌∷◌, arith,
}
use paseo_node.Runtime.Constants.{unit}
use paseo_node.Runtime.Features.{std, metadata_hash, on_chain_release_build, Build, enabled}

-- What the script asks of `substrate_wasm_builder`.
pub data WasmBuild : Type 0 where
  -- `enable_metadata_hash`, with the symbol and the decimals of the token
  with_metadata_hash : String → ℕ → WasmBuild
  with_defaults : WasmBuild
  no_build : WasmBuild

abbrev under : Bool → WasmBuild → List WasmBuild
under true main = main ∷ []
under false main = []

-- The three functions `main` under their conditions: those of them that are compiled.
unfoldable pub mains : Build → List WasmBuild
mains b =
    under (enabled b std && enabled b metadata_hash) (with_metadata_hash "UNIT" 12)
    ++ (under (enabled b std && not (enabled b metadata_hash)) with_defaults
        ++ under (not (enabled b std)) no_build)

-- `include!` of the binary that the script builds, under `#[cfg(feature = "std")]`
unfoldable pub includes_wasm : Build → Bool
includes_wasm b = enabled b std

-- The binary for a chain carries the hash of the metadata.
abbrev pub IsRelease : Build → Type 0
IsRelease b = (b.requested metadata_hash ≡ true) ⊎ (b.requested on_chain_release_build ≡ true)

hash_iff : (b : Build) → (enabled b metadata_hash ≡ true) ↔ IsRelease b
unfolding enabled
hash_iff b = ground arith

-- What a build asks of the script's one `main`, with the standard library or not.
abbrev MakesBinary : Bool → Type 0 → WasmBuild → Type 0
MakesBinary with_std Release main =
    ((main ≢ no_build) ↔ (with_std ≡ true))
    × (((symbol : String) × (decimals : ℕ) × (main ≡ with_metadata_hash symbol decimals)
          × (10 ^ decimals ≡ unit))
        ↔ ((with_std ≡ true) × Release))

one_main :
    (with_std hash : Bool) (Release : Type 0)
    → (hash ≡ true) ↔ Release
    → (main : WasmBuild) × (under (with_std && hash) (with_metadata_hash "UNIT" 12)
          ++ (under (with_std && not hash) with_defaults ++ under (not with_std) no_build)
        ≡ main ∷ [])
      × MakesBinary with_std Release main
one_main true true Release asked = (
  with_metadata_hash "UNIT" 12,
  refl,
  (((λ _. refl), (λ _ h. cc)), ((λ _. (refl, asked.0 refl)), (λ _. ("UNIT", 12, refl, refl)))),
)
one_main true false Release asked = (
  with_defaults,
  refl,
  (
    ((λ _. refl), (λ _ h. cc)),
    ((λ (symbol, decimals, h, _). cc), (λ (_, r). absurd (false≢true (asked.1 r)))),
  ),
)
one_main false hash Release asked = (
  no_build,
  refl,
  (
    ((λ h. absurd (h refl)), (λ h. cc)),
    ((λ (symbol, decimals, h, _). cc), (λ (h, _). absurd (false≢true h))),
  ),
)

-- Whatever the features, the build script has one `main`. It builds a binary exactly if the
-- runtime includes one, and the binary's metadata hash is enabled exactly if a build that includes
-- it asks for that or for a release, with decimals that make a token the runtime's unit.
pub mains_lem :
    (b : Build)
    → (main : WasmBuild) × (mains b ≡ main ∷ [])
      × ((main ≢ no_build) ↔ (includes_wasm b ≡ true))
      × (((symbol : String) × (decimals : ℕ) × (main ≡ with_metadata_hash symbol decimals)
            × (10 ^ decimals ≡ unit))
          ↔ ((includes_wasm b ≡ true) × IsRelease b))
unfolding mains includes_wasm
mains_lem b =
    let (main, made, (makes, hashes)) =
      one_main (enabled b std) (enabled b metadata_hash) (IsRelease b) (hash_iff b) in
    (main, made, makes, hashes)
