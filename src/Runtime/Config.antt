-- ===== src/Runtime/Config.antt =====
-- The `impl … Config for Runtime` blocks of runtime/src/configs/mod.rs, each a record of what it
-- sets: numbers, and the types that provide a behaviour. Weights, and the aggregate types that
-- `construct_runtime` generates, are left out. The children hold the blocks by crate.
pub mod Frame
pub mod Pns
pub mod Pki
use paseo_node.Runtime.Pallets.{Pallet}

-- A type that is named as the provider of a behaviour.
pub data Provider : Type 0 where
  -- a pallet of the runtime, also where it is named by its module
  the_pallet : Pallet → Provider
  -- `()`
  no_provider : Provider
  ensure_root : Provider
  -- the adapters of the file
  ensure_root_as_account_id : Provider
  pns_is_open pns_ss58_updater pns_origin_recorder pns_record_cleaner : Provider
  pns_custodian pns_block_author pns_registry_checker : Provider
  aura_account_finder : Provider
  -- `PalletProxyValidator`, and the one that benchmarks put in its place
  pallet_proxy_validator noop_proxy_validator : Provider
  -- of ZK-PKI
  tpm_test_attestation_verifier noop_binding_proof_verifier : Provider
