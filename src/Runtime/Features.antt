-- ===== src/Runtime/Features.antt =====
-- The features of the runtime crate, runtime/Cargo.toml, and the code that depends on them: the
-- guard of runtime/src/lib.rs and the verifiers of runtime/src/configs/mod.rs.
pub mod Laws
pub mod Wasm
use paseo_node.Base.{Bool, true, false, not, ◌&&◌, ◌||◌, List, [], ◌∷◌, any}
use paseo_node.Runtime.Config.{Provider, noop_binding_proof_verifier}
use paseo_node.Runtime.Config.Pki.{pki_config}

pub data Feature : Type 0 where
  std test_attestation production : Feature
  runtime_benchmarks try_runtime metadata_hash on_chain_release_build kusama : Feature

abbrev pub all_features : List Feature
all_features =
    std ∷ test_attestation ∷ production ∷ runtime_benchmarks ∷ try_runtime ∷ metadata_hash
    ∷ on_chain_release_build ∷ kusama ∷ []

-- `default`
abbrev pub in_default : Feature → Bool
in_default std = true
in_default test_attestation = true
in_default _ = false

-- The feature of the crate that a feature turns on. None of these turns another on.
abbrev pub forwards : Feature → Feature → Bool
forwards on_chain_release_build metadata_hash = true
forwards _ _ = false

-- What is asked of cargo, and whether another crate of the build turns on the feature
-- `test-utils` of zk-pki-tpm.
pub record Build : Type 0 where
  pub requested : Feature → Bool
  pub default_features : Bool
  pub test_utils_elsewhere : Bool

abbrev pub chosen : Build → Feature → Bool
chosen b f = b.requested f || (b.default_features && in_default f)

unfoldable pub enabled : Build → Feature → Bool
enabled b f = chosen b f || any (λ g. chosen b g && forwards g f) all_features

-- `compile_error!` under `#[cfg(all(feature = "test-attestation", feature = "production"))]`
unfoldable pub guard : Build → Bool
unfolding enabled
guard b = not (enabled b test_attestation && enabled b production)

-- `test-attestation` forwards to `zk-pki-tpm/test-utils`, under which the crate has its module
-- `test_mock_verifier`.
unfoldable pub has_test_mock_verifier : Build → Bool
unfolding enabled
has_test_mock_verifier b = enabled b test_attestation || b.test_utils_elsewhere

-- A provider that stands in `test_mock_verifier`.
abbrev pub is_mock : Provider → Bool
is_mock noop_binding_proof_verifier = true
is_mock _ = false

-- The configuration of ZK-PKI names nothing that is not there.
unfoldable pub config_resolves : Build → Bool
unfolding enabled has_test_mock_verifier
config_resolves b =
    not (is_mock (pki_config (enabled b runtime_benchmarks)).binding_proof_verifier)
    || has_test_mock_verifier b
