-- ===== src/Runtime/Apis/Calls.antt =====
-- The calls of `impl_runtime_apis!` in runtime/src/apis.rs: with what each is given and the type
-- of its answer.
use Prim.Native.String.{String}
use paseo_node.Base.{ℕ, Bool, Option, List, Bytes, Result}
use paseo_node.Runtime.Types.{AccountId, Balance, DomainHash, Hash, Moment, Nonce}
use paseo_node.Runtime.Version.{RuntimeVersion}
use paseo_node.Runtime.Config.Frame.{Weight}
use paseo_node.Runtime.Pns.{PnsTypes, NameRecord, ListingInfo}
use paseo_node.Runtime.Apis.Types.{ApiTypes}

module _ (A : ApiTypes) (T : PnsTypes) where
  -- The calls, by the API that they belong to.
  pub data ApiCall : Type 0 where
    -- Core
    version : ApiCall
    execute_block : A.Block → ApiCall
    initialize_block : A.Header → ApiCall
    -- Metadata and RuntimeViewFunction
    metadata : ApiCall
    metadata_at_version : ℕ → ApiCall
    metadata_versions : ApiCall
    execute_view_function : A.ViewFunctionId → Bytes → ApiCall
    -- BlockBuilder
    apply_extrinsic : A.Extrinsic → ApiCall
    finalize_block : ApiCall
    inherent_extrinsics : A.InherentData → ApiCall
    check_inherents : A.Block → A.InherentData → ApiCall
    -- TaggedTransactionQueue and OffchainWorkerApi
    validate_transaction : A.TransactionSource → A.Extrinsic → Hash → ApiCall
    offchain_worker : A.Header → ApiCall
    -- AuraApi
    slot_duration : ApiCall
    authorities : ApiCall
    -- SessionKeys
    generate_session_keys : Bytes → Option Bytes → ApiCall
    decode_session_keys : Bytes → ApiCall
    -- GrandpaApi
    grandpa_authorities : ApiCall
    current_set_id : ApiCall
    submit_report_equivocation : A.EquivocationProof → A.KeyOwnershipProof → ApiCall
    generate_key_ownership_proof : ℕ → A.GrandpaId → ApiCall
    -- AccountNonceApi
    account_nonce : AccountId → ApiCall
    -- TransactionPaymentApi and TransactionPaymentCallApi
    query_info : A.Extrinsic → ℕ → ApiCall
    query_fee_details : A.Extrinsic → ℕ → ApiCall
    query_call_info : A.RuntimeCall → ℕ → ApiCall
    query_call_fee_details : A.RuntimeCall → ℕ → ApiCall
    query_weight_to_fee : Weight → ApiCall
    query_length_to_fee : ℕ → ApiCall
    -- PnsStorageApi
    get_info : DomainHash → ApiCall
    lookup : DomainHash → List T.RecordType → ApiCall
    get_listing : Bytes → ApiCall
    resolve_name : Bytes → ApiCall
    lookup_by_name : Bytes → List T.RecordType → ApiCall
    -- SecretSquirrelApi
    retrieve_a_slot : Hash → ApiCall
    a_slot_exists : Hash → ApiCall
    -- ZkPkiApi
    cert_status : Bytes → ApiCall
    certs_by_issuer : AccountId → ApiCall
    certs_by_user : AccountId → ApiCall
    certs_by_root : AccountId → ApiCall
    entity_status : AccountId → ApiCall
    ek_lookup : AccountId → Bytes → ApiCall
    chain_valid_at : Bytes → ℕ → ApiCall
    -- Benchmark and TryRuntime, which only builds with their features have
    benchmark_metadata : Bool → ApiCall
    dispatch_benchmark : A.BenchmarkConfig → ApiCall
    on_runtime_upgrade : A.UpgradeCheckSelect → ApiCall
    try_execute_block : A.Block → Bool → Bool → A.TryStateSelect → ApiCall
    -- GenesisBuilder
    build_state : Bytes → ApiCall
    get_preset : Option String → ApiCall
    preset_names : ApiCall

  abbrev pub Answer : ApiCall → Type 0
  Answer version = RuntimeVersion
  Answer (execute_block _) = Unit {0}
  Answer (initialize_block _) = A.ExtrinsicInclusionMode
  Answer metadata = Bytes
  Answer (metadata_at_version _) = Option Bytes
  Answer metadata_versions = List ℕ
  Answer (execute_view_function _ _) = Result Bytes A.ViewFunctionDispatchError
  Answer (apply_extrinsic _) = A.ApplyExtrinsicResult
  Answer finalize_block = A.Header
  Answer (inherent_extrinsics _) = List A.Extrinsic
  Answer (check_inherents _ _) = A.CheckInherentsResult
  Answer (validate_transaction _ _ _) = A.TransactionValidity
  Answer (offchain_worker _) = Unit {0}
  Answer slot_duration = Moment
  Answer authorities = List A.AuraId
  Answer (generate_session_keys _ _) = Bytes × Bytes
  Answer (decode_session_keys _) = Option (List (Bytes × A.KeyTypeId))
  Answer grandpa_authorities = List (A.GrandpaId × ℕ)
  Answer current_set_id = ℕ
  Answer (submit_report_equivocation _ _) = Option (Unit {0})
  Answer (generate_key_ownership_proof _ _) = Option A.KeyOwnershipProof
  Answer (account_nonce _) = Nonce
  Answer (query_info _ _) = A.DispatchInfo
  Answer (query_fee_details _ _) = A.FeeDetails
  Answer (query_call_info _ _) = A.DispatchInfo
  Answer (query_call_fee_details _ _) = A.FeeDetails
  Answer (query_weight_to_fee _) = Balance
  Answer (query_length_to_fee _) = Balance
  Answer (get_info _) = Option NameRecord
  Answer (lookup _ _) = List (T.RecordType × Bytes)
  Answer (get_listing _) = Option ListingInfo
  Answer (resolve_name _) = Option NameRecord
  Answer (lookup_by_name _ _) = List (T.RecordType × Bytes)
  Answer (retrieve_a_slot _) = Option Bytes
  Answer (a_slot_exists _) = Bool
  Answer (cert_status _) = Option A.CertStatus
  Answer (certs_by_issuer _) = List A.CertSummary
  Answer (certs_by_user _) = List A.CertSummary
  Answer (certs_by_root _) = List A.CertSummary
  Answer (entity_status _) = Option A.EntityStatus
  Answer (ek_lookup _ _) = Option Bytes
  Answer (chain_valid_at _ _) = Bool
  Answer (benchmark_metadata _) = List A.BenchmarkList × List A.StorageInfo
  Answer (dispatch_benchmark _) = Result A.BenchmarkBatches String
  Answer (on_runtime_upgrade _) = Weight × Weight
  Answer (try_execute_block _ _ _ _) = Weight
  Answer (build_state _) = Result (Unit {0}) String
  Answer (get_preset _) = Option Bytes
  Answer preset_names = List String
