-- ===== src/Runtime/Adapters.antt =====
-- The adapters of runtime/src/configs/mod.rs that the PNS pallets call back.
pub mod Laws
use paseo_node.Base.{
  ℕ, Bool, true, false, Option, none, some, Bytes, replicate, Result, is_ok, is_err, map_ok,
  if◌then◌else◌, ok,
}
use paseo_node.Runtime.Types.{AccountId, DomainHash}
use paseo_node.Runtime.Constants.{pns_custodian_account}

-- `EnsureRootAsAccountId`; `ensure_root` is `frame_system::EnsureRoot::try_origin`, which gives
-- back the origin that it refuses.
unfoldable pub try_origin {ℓ} :
    {RuntimeOrigin : Type ℓ}
    → (RuntimeOrigin → Result (Unit {0}) RuntimeOrigin)
    → RuntimeOrigin
    → Result AccountId RuntimeOrigin
try_origin ensure_root o = map_ok (λ _. replicate 32 0) (ensure_root o)

-- The origin with which the benchmarks call, under the feature `runtime-benchmarks`; `root` is
-- `frame_system::RawOrigin::Root`.
unfoldable pub try_successful_origin {ℓ} :
    {RuntimeOrigin : Type ℓ} → RuntimeOrigin → Result RuntimeOrigin (Unit {0})
try_successful_origin root = ok root

-- What the adapters call of the PNS pallets, over the chain's state `State`.
pub record PnsPallets : Type 1 where
  pub State : Type 0
  pub DispatchError : Type 0
  -- `pns_resolvers::resolvers::Pallet`
  pub set_ss58_record : DomainHash → AccountId → State → Result (Unit {0}) DispatchError × State
  pub set_origin_record : DomainHash → Bytes → State → Result (Unit {0}) DispatchError × State
  pub clear_records_except_ss58 : DomainHash → State → State
  pub clear_all_records : DomainHash → State → State
  -- `pns_registrar::registry::Pallet::verify`
  pub verify : AccountId → DomainHash → State → Result (Unit {0}) DispatchError
  -- `pns_registrar::registrar::Pallet`
  pub RegistrarInfo : Type 0
  pub get_info : DomainHash → State → Option RegistrarInfo
  pub check_expires_useable : DomainHash → State → Result (Unit {0}) DispatchError
  -- `pallet_authorship::Pallet::author`
  pub author : State → Option AccountId

module _ (P : PnsPallets) where
  open P use {
    State, DispatchError, set_ss58_record, set_origin_record, verify, get_info,
    check_expires_useable,
  }

  -- `PnsSs58Updater`
  unfoldable pub update_ss58 :
      DomainHash → AccountId → State → Result (Unit {0}) DispatchError × State
  update_ss58 node owner s = set_ss58_record node owner s

  -- `PnsOriginRecorder`
  unfoldable pub record_origin :
      DomainHash → Bytes → State → Result (Unit {0}) DispatchError × State
  record_origin node block_hash s = set_origin_record node block_hash s

  -- `PnsRecordCleaner`
  unfoldable pub clear_records_except_ss58 : DomainHash → State → State
  clear_records_except_ss58 node s = P.clear_records_except_ss58 node s

  unfoldable pub clear_all_records : DomainHash → State → State
  clear_all_records node s = P.clear_all_records node s

  -- `PnsBlockAuthor`
  unfoldable pub block_author : State → Option AccountId
  block_author s = P.author s

  -- `PnsRegistryChecker`
  unfoldable pub check_node_useable : DomainHash → AccountId → State → Bool
  check_node_useable node owner s =
      if is_err (verify owner node s)
      then false
      else elim (get_info node s) [ some _ ↦ is_ok (check_expires_useable node s) | none ↦ true ]

-- `PnsRegistryChecker::base_node`, the parameter `BaseNode`; the constant is `NATIVE_BASENODE` of
-- pns_types.
unfoldable pub base_node : DomainHash → DomainHash
base_node native_basenode = native_basenode

-- `PnsIsOpen`
unfoldable pub is_open : Bool
is_open = true

-- `PnsCustodian`
unfoldable pub pns_custodian : AccountId
pns_custodian = pns_custodian_account
