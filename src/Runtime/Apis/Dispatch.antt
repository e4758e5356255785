-- ===== src/Runtime/Apis/Dispatch.antt =====
-- What each runtime API call of runtime/src/apis.rs does: its answer, and the chain's state after
-- it.
use paseo_node.Base.{Option, none, Bytes}
use paseo_node.Base.Outcome.{Outcome, returns, ◌>>=◌}
use paseo_node.Runtime.Genesis.{GenesisTypes, GenesisPatch}
use paseo_node.Runtime.Pns.{PnsTypes, Storage}
use paseo_node.Runtime.Pns
use paseo_node.Runtime.Version
use paseo_node.Runtime.Apis.{Slots, retrieve_slot, slot_exists, PresetHelper, preset, presets}
use paseo_node.Runtime.Apis.Payment
use paseo_node.Runtime.Apis.ZkPki
use paseo_node.Runtime.Apis.Trials
use paseo_node.Runtime.Apis.Types.{ApiTypes, Executive, Pallets}
use paseo_node.Runtime.Apis.Calls.{
  ApiCall, Answer, version, execute_block, initialize_block, metadata, metadata_at_version,
  metadata_versions, execute_view_function, apply_extrinsic, finalize_block, inherent_extrinsics,
  check_inherents, validate_transaction, offchain_worker, slot_duration, authorities,
  generate_session_keys, decode_session_keys, grandpa_authorities, current_set_id,
  submit_report_equivocation, generate_key_ownership_proof, account_nonce, query_info,
  query_fee_details, query_call_info, query_call_fee_details, query_weight_to_fee,
  query_length_to_fee, get_info, lookup, get_listing, resolve_name, lookup_by_name, retrieve_a_slot,
  a_slot_exists, cert_status, certs_by_issuer, certs_by_user, certs_by_root, entity_status,
  ek_lookup, chain_valid_at, benchmark_metadata, dispatch_benchmark, on_runtime_upgrade,
  try_execute_block, build_state, get_preset, preset_names,
}

-- The runtime: what the calls forward to, and the views of the state that the queries on names
-- and slots read.
pub record Runtime (A : ApiTypes) (T : PnsTypes) : Type 1 where
  pub executive : Executive A
  pub pallets : Pallets A
  pub storage : A.State → Storage T
  pub slots : A.State → Slots A.Slot
  pub genesis : GenesisTypes
  pub to_string : GenesisPatch genesis → Option Bytes
  pub preset_helper : PresetHelper genesis to_string

module _ {A : ApiTypes} {T : PnsTypes} (R : Runtime A T) where
  open R use {executive, pallets, storage, slots, genesis, to_string, preset_helper}

  -- An answer that leaves the state.
  abbrev reads : {B : Type 0} → B → A.State → Outcome (B × A.State)
  reads b s = returns (b, s)

  abbrev writes : {B : Type 0} → B × A.State → Outcome (B × A.State)
  writes r = returns r

  unfoldable pub call : (c : ApiCall A T) → A.State → Outcome (Answer A T c × A.State)
  call version s = reads Version.version s
  call (execute_block block) s = do after ← executive.execute_block block s; returns (tt, after)
  call (initialize_block header) s = executive.initialize_block header s
  call metadata s = reads executive.metadata s
  call (metadata_at_version v) s = reads (executive.metadata_at_version v) s
  call metadata_versions s = reads executive.metadata_versions s
  call (execute_view_function id input) s = do
    answer ← executive.execute_view_function id input s
    returns (answer, s)
  call (apply_extrinsic extrinsic) s = executive.apply_extrinsic extrinsic s
  call finalize_block s = executive.finalize_block s
  call (inherent_extrinsics inherents) s = do
    made ← executive.create_extrinsics inherents s
    returns (made, s)
  call (check_inherents block inherents) s = do
    checked ← executive.check_extrinsics block inherents s
    returns (checked, s)
  call (validate_transaction source tx block_hash) s =
      executive.validate_transaction source tx block_hash s
  call (offchain_worker header) s = do
    after ← executive.offchain_worker header s
    returns (tt, after)
  call slot_duration s = reads (pallets.slot_duration s) s
  call authorities s = reads (pallets.aura_authorities s) s
  call (generate_session_keys owner seed) s = reads (pallets.generate_session_keys owner seed s) s
  call (decode_session_keys encoded) s = reads (pallets.decode_into_raw_public_keys encoded) s
  call grandpa_authorities s = reads (pallets.grandpa_authorities s) s
  call current_set_id s = reads (pallets.current_set_id s) s
  call (submit_report_equivocation _ _) s = reads none s
  call (generate_key_ownership_proof _ _) s = reads none s
  call (account_nonce account) s = reads (pallets.account_nonce account s) s
  call (query_info uxt len) s = reads (Payment.query_info pallets uxt len s) s
  call (query_fee_details uxt len) s = reads (Payment.query_fee_details pallets uxt len s) s
  call (query_call_info c len) s = reads (Payment.query_call_info pallets c len s) s
  call (query_call_fee_details c len) s = reads (Payment.query_call_fee_details pallets c len s) s
  call (query_weight_to_fee weight) s = reads (Payment.query_weight_to_fee pallets weight s) s
  call (query_length_to_fee length) s = reads (Payment.query_length_to_fee pallets length s) s
  call (get_info id) s = reads (Pns.get_info T (storage s) id) s
  call (lookup id record_types) s = reads (Pns.lookup T (storage s) id record_types) s
  call (get_listing name) s = reads (Pns.get_listing T (storage s) name) s
  call (resolve_name name) s = reads (Pns.resolve_name T (storage s) name) s
  call (lookup_by_name name record_types) s =
      reads (Pns.lookup_by_name T (storage s) name record_types) s
  call (retrieve_a_slot slot_hash) s = reads (retrieve_slot (slots s) slot_hash) s
  call (a_slot_exists slot_hash) s = reads (slot_exists (slots s) slot_hash) s
  call (cert_status thumbprint) s = reads (ZkPki.cert_status pallets thumbprint s) s
  call (certs_by_issuer issuer) s = reads (ZkPki.certs_by_issuer pallets issuer s) s
  call (certs_by_user user) s = reads (ZkPki.certs_by_user pallets user s) s
  call (certs_by_root root) s = reads (ZkPki.certs_by_root pallets root s) s
  call (entity_status address) s = reads (ZkPki.entity_status pallets address s) s
  call (ek_lookup root ek_hash) s = reads (ZkPki.ek_lookup pallets root ek_hash s) s
  call (chain_valid_at thumbprint block_number) s =
      reads (ZkPki.chain_valid_at pallets thumbprint block_number s) s
  call (benchmark_metadata extra) s = reads (Trials.benchmark_metadata pallets extra) s
  call (dispatch_benchmark config) s = writes (Trials.dispatch_benchmark pallets config s)
  call (on_runtime_upgrade checks) s = Trials.on_runtime_upgrade executive checks s
  call (try_execute_block block state_root_check signature_check select) s =
      Trials.try_execute_block executive block state_root_check signature_check select s
  call (build_state config) s = executive.build_state config s
  call (get_preset id) s = do text ← preset genesis to_string preset_helper id; returns (text, s)
  call preset_names s = reads (presets genesis to_string) s
