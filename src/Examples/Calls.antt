-- ===== src/Examples/Calls.antt =====
-- A runtime whose state is a number, which every write makes greater by one.
use Prim.Native.String.{String}
use paseo_node.Base.{
  ℕ, ◌+◌, ◌≡◌, ◌⊎◌, inl, inr, codes, refl, false, Option, none, some, [], ◌∷◌, Bytes, ok, err,
}
use paseo_node.Base.Outcome.{returns, panics}
use paseo_node.Runtime.Apis.Types.{ApiTypes, Executive, Pallets}
use paseo_node.Runtime.Apis.Calls.{resolve_name, apply_extrinsic, inherent_extrinsics}
use paseo_node.Runtime.Apis.Dispatch.{Runtime, call}
use paseo_node.Runtime.Config.Frame.{Weight}
use paseo_node.Examples.Apis.{look_up, one_slot}
use paseo_node.Examples.Genesis.{toy}
use paseo_node.Examples.Names
use paseo_node.Runtime.Pns
use paseo_node.Runtime.Pns.{NameRecord}
use paseo_node.Node.PnsRpc.{
  Client, World, ErrorObject, internal_error, pns_get_info, pns_resolve_name, pns_lookup,
  pns_get_listing, pns_lookup_by_name, serve,
}
use paseo_node.Node.PnsRpc.Answers.{RunsCalls, rendered, serve-call}

abbrev pub types : ApiTypes
types = record {
  State = ℕ;
  Block = Unit {0};
  Header = Unit {0};
  Extrinsic = Unit {0};
  RuntimeCall = Unit {0};
  ExtrinsicInclusionMode = Unit {0};
  ApplyExtrinsicResult = Unit {0};
  TransactionSource = Unit {0};
  TransactionValidity = Unit {0};
  InherentData = Unit {0};
  CheckInherentsResult = Unit {0};
  ViewFunctionId = Unit {0};
  ViewFunctionDispatchError = Unit {0};
  KeyTypeId = Unit {0};
  AuraId = ℕ;
  GrandpaId = Unit {0};
  EquivocationProof = Unit {0};
  KeyOwnershipProof = Unit {0};
  DispatchInfo = Unit {0};
  FeeDetails = Unit {0};
  CertStatus = Unit {0};
  CertSummary = Unit {0};
  EntityStatus = Unit {0};
  BenchmarkConfig = Unit {0};
  BenchmarkList = Unit {0};
  BenchmarkBatches = Unit {0};
  StorageInfo = Unit {0};
  TrackedStorageKey = Unit {0};
  UpgradeCheckSelect = Unit {0};
  TryStateSelect = Unit {0};
  TryRuntimeError = String;
  Slot = Bytes;
}

abbrev pub heavy : Weight
heavy = record { ref_time = 1; proof_size = 1 }

abbrev pub small_executive : Executive types
small_executive = record {
  execute_block = λ _ s. returns (s + 1);
  initialize_block = λ _ s. returns (tt, s + 1);
  metadata = [];
  metadata_at_version = λ _. none;
  metadata_versions = [];
  execute_view_function = λ _ _ s. returns (ok []);
  apply_extrinsic = λ _ s. returns (tt, s + 1);
  finalize_block = λ s. returns (tt, s + 1);
  create_extrinsics = λ _ s. panics;
  check_extrinsics = λ _ _ s. panics;
  validate_transaction = λ _ _ _ s. returns (tt, s + 1);
  offchain_worker = λ _ s. returns (s + 1);
  try_runtime_upgrade = λ _ s. returns (err "refused", s + 1);
  try_execute_block = λ _ _ _ _ s. returns (err "refused", s + 1);
  max_block = heavy;
  build_state = λ _ s. returns (ok tt, s + 1);
}

abbrev pub small_pallets : Pallets types
small_pallets = record {
  slot_duration = λ s. 6000;
  aura_authorities = λ s. 1 ∷ 2 ∷ [];
  generate_session_keys = λ _ _ s. ([], []);
  decode_into_raw_public_keys = λ _. none;
  grandpa_authorities = λ s. [];
  current_set_id = λ s. 0;
  account_nonce = λ _ s. 0;
  query_info = λ _ _ s. tt;
  query_fee_details = λ _ _ s. tt;
  query_call_info = λ _ _ s. tt;
  query_call_fee_details = λ _ _ s. tt;
  weight_to_fee = λ _ s. 0;
  length_to_fee = λ _ s. 0;
  query_cert_status = λ _ s. none;
  query_certs_by_issuer = λ _ s. [];
  query_certs_by_user = λ _ s. [];
  query_certs_by_root = λ _ s. [];
  query_entity_status = λ _ s. none;
  query_ek_lookup = λ _ _ s. none;
  query_chain_valid_at = λ _ _ s. false;
  list_benchmark = λ _ _. tt;
  storage_info = [];
  whitelisted_storage_keys = [];
  no_batches = tt;
  add_benchmark = λ _ _ _ s. (ok tt, s + 1);
}

abbrev pub small : Runtime types Names.toy
small = record {
  executive = small_executive;
  pallets = small_pallets;
  storage = λ s. Names.store;
  slots = λ s. one_slot;
  genesis = toy;
  to_string = λ p. some [];
  preset_helper = look_up;
}

no_timestamp : call small (inherent_extrinsics tt) 4 ≡ panics
unfolding call
no_timestamp = refl

applied : call small (apply_extrinsic tt) 4 ≡ returns (tt, 5)
unfolding call
applied = refl

-- A client whose runtime is that one, at the state 4.
abbrev client : Client Names.toy
client = record {
  ApiError = ℕ;
  debug = λ e. "failed";
  info = λ n. record { best_hash = 9 ∷ []; best_number = 40 };
  api_get_info = λ h node. ok (Pns.get_info Names.toy Names.store node);
  api_resolve_name = λ h name. ok (Pns.resolve_name Names.toy Names.store name);
  api_lookup = λ h node types. ok (Pns.lookup Names.toy Names.store node types);
  api_get_listing = λ h name. err 1;
  api_lookup_by_name = λ h name types. ok (Pns.lookup_by_name Names.toy Names.store name types);
  HickoryType = ℕ;
  from_u16 = λ n. n;
  to_u16 = λ n. n;
  to_pns = λ n. n;
  from_pns = λ n. n;
}

client-RunsCalls : RunsCalls small client (λ h. 4)
unfolding call
client-RunsCalls (pns_get_info node) h = inl (_, _, refl, refl)
client-RunsCalls (pns_resolve_name name) h = inl (_, _, refl, refl)
client-RunsCalls (pns_lookup node wanted) h = inl (_, _, refl, refl)
client-RunsCalls (pns_get_listing name) h = inr (1, refl)
client-RunsCalls (pns_lookup_by_name name wanted) h = inl (_, _, refl, refl)

serve-call_example :
    let req = pns_resolve_name (codes "sold") in
    let w : World client = record { reads = 0; calls = [] } in
    ((a : Option NameRecord) × (call small (resolve_name (codes "sold")) 4 ≡ returns (a, 4))
      × ((serve client req w).0 ≡ ok (rendered types client req (client.info 0) a)))
    ⊎ ((e : ErrorObject) × ((serve client req w).0 ≡ err e) × (e.code ≡ internal_error))
serve-call_example =
    serve-call small client (λ h. 4) client-RunsCalls (pns_resolve_name (codes "sold"))
      (record { reads = 0; calls = [] }) refl
