-- ===== src/Runtime/Apis/Types.antt =====
-- What the runtime APIs of runtime/src/apis.rs forward to: `Executive` and the pallets, over the
-- chain's state. A function that returns a state may change it, and one that returns an outcome may
-- panic.
use Prim.Native.String.{String}
use paseo_node.Base.{ℕ, Bool, Option, List, Bytes, Result}
use paseo_node.Base.Outcome.{Outcome}
use paseo_node.Runtime.Types.{AccountId, Balance, Hash, Nonce, Moment}
use paseo_node.Runtime.Config.Frame.{Weight}
use paseo_node.Runtime.Benchmarks.{Row}

-- The types of polkadot-sdk and the pallets that pass through.
pub record ApiTypes : Type 1 where
  pub State : Type 0
  pub Block : Type 0
  pub Header : Type 0
  pub Extrinsic : Type 0
  pub RuntimeCall : Type 0
  pub ExtrinsicInclusionMode : Type 0
  pub ApplyExtrinsicResult : Type 0
  pub TransactionSource : Type 0
  pub TransactionValidity : Type 0
  pub InherentData : Type 0
  pub CheckInherentsResult : Type 0
  pub ViewFunctionId : Type 0
  pub ViewFunctionDispatchError : Type 0
  pub KeyTypeId : Type 0
  pub AuraId : Type 0
  pub GrandpaId : Type 0
  pub EquivocationProof : Type 0
  pub KeyOwnershipProof : Type 0
  pub DispatchInfo : Type 0
  pub FeeDetails : Type 0
  pub CertStatus : Type 0
  pub CertSummary : Type 0
  pub EntityStatus : Type 0
  pub BenchmarkConfig : Type 0
  pub BenchmarkList : Type 0
  pub BenchmarkBatches : Type 0
  pub StorageInfo : Type 0
  pub TrackedStorageKey : Type 0
  pub UpgradeCheckSelect : Type 0
  pub TryStateSelect : Type 0
  pub TryRuntimeError : Type 0
  pub Slot : Type 0

-- `Executive` and the functions that `construct_runtime` generates.
pub record Executive (A : ApiTypes) : Type 0 where
  pub execute_block : A.Block → A.State → Outcome A.State
  pub initialize_block : A.Header → A.State → Outcome (A.ExtrinsicInclusionMode × A.State)
  pub metadata : Bytes
  pub metadata_at_version : ℕ → Option Bytes
  pub metadata_versions : List ℕ
  pub execute_view_function :
      A.ViewFunctionId → Bytes → A.State → Outcome (Result Bytes A.ViewFunctionDispatchError)
  pub apply_extrinsic : A.Extrinsic → A.State → Outcome (A.ApplyExtrinsicResult × A.State)
  pub finalize_block : A.State → Outcome (A.Header × A.State)
  pub create_extrinsics : A.InherentData → A.State → Outcome (List A.Extrinsic)
  pub check_extrinsics : A.Block → A.InherentData → A.State → Outcome A.CheckInherentsResult
  pub validate_transaction :
      A.TransactionSource → A.Extrinsic → Hash → A.State → Outcome (A.TransactionValidity × A.State)
  pub offchain_worker : A.Header → A.State → Outcome A.State
  pub try_runtime_upgrade :
      A.UpgradeCheckSelect → A.State → Outcome (Result Weight A.TryRuntimeError × A.State)
  pub try_execute_block :
      A.Block
      → Bool
      → Bool
      → A.TryStateSelect
      → A.State
      → Outcome (Result Weight A.TryRuntimeError × A.State)
  pub max_block : Weight
  pub build_state : Bytes → A.State → Outcome (Result (Unit {0}) String × A.State)

-- What the APIs ask of the pallets.
pub record Pallets (A : ApiTypes) : Type 0 where
  pub slot_duration : A.State → Moment
  pub aura_authorities : A.State → List A.AuraId
  -- keeps the generated keys in the keystore, which is outside of the state
  pub generate_session_keys : Bytes → Option Bytes → A.State → Bytes × Bytes
  pub decode_into_raw_public_keys : Bytes → Option (List (Bytes × A.KeyTypeId))
  pub grandpa_authorities : A.State → List (A.GrandpaId × ℕ)
  pub current_set_id : A.State → ℕ
  pub account_nonce : AccountId → A.State → Nonce
  pub query_info : A.Extrinsic → ℕ → A.State → A.DispatchInfo
  pub query_fee_details : A.Extrinsic → ℕ → A.State → A.FeeDetails
  pub query_call_info : A.RuntimeCall → ℕ → A.State → A.DispatchInfo
  pub query_call_fee_details : A.RuntimeCall → ℕ → A.State → A.FeeDetails
  pub weight_to_fee : Weight → A.State → Balance
  pub length_to_fee : ℕ → A.State → Balance
  pub query_cert_status : Bytes → A.State → Option A.CertStatus
  pub query_certs_by_issuer : AccountId → A.State → List A.CertSummary
  pub query_certs_by_user : AccountId → A.State → List A.CertSummary
  pub query_certs_by_root : AccountId → A.State → List A.CertSummary
  pub query_entity_status : AccountId → A.State → Option A.EntityStatus
  pub query_ek_lookup : AccountId → Bytes → A.State → Option Bytes
  pub query_chain_valid_at : Bytes → ℕ → A.State → Bool
  pub list_benchmark : Bool → Row → A.BenchmarkList
  pub storage_info : List A.StorageInfo
  pub whitelisted_storage_keys : List A.TrackedStorageKey
  pub no_batches : A.BenchmarkBatches
  -- a row of `add_benchmarks!`
  pub add_benchmark :
      A.BenchmarkConfig × List A.TrackedStorageKey
      → Row
      → A.BenchmarkBatches
      → A.State
      → Result A.BenchmarkBatches String × A.State
