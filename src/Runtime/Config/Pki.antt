-- ===== src/Runtime/Config/Pki.antt =====
-- The configurations of ZK-PKI and SecretSquirrel, runtime/src/configs/mod.rs.
use paseo_node.Base.{ℕ, Bool, true, false}
use paseo_node.Runtime.Types.{AccountId, Balance, BlockNumber}
use paseo_node.Runtime.Constants.{
  pki_inactive_purge_period, pki_contract_offer_ttl_blocks, pki_max_root_ttl_blocks,
  pki_max_issuers_per_root, pki_challenge_window_blocks, pki_cert_deposit, pki_offer_deposit,
  pki_min_root_ttl_blocks, pki_min_issuer_ttl_blocks, pki_ttl_check_interval, pki_template_deposit,
  pki_max_templates_per_issuer, pki_protocol_fee_basis_points, pki_block_creator_cap_basis_points,
  pki_deposit_basis_points, pki_min_deposit, pki_mint_fee_pop, pki_mint_fee_packed,
  pki_mint_fee_none, pki_protocol_fee_recipient, ss_deposit_base, ss_deposit_per_byte,
  ss_deposit_per_block, ss_max_active_slots,
}
use paseo_node.Runtime.Pallets.{balances, scheduler, insecure_randomness}
use paseo_node.Runtime.Config.{
  Provider, the_pallet, aura_account_finder, pallet_proxy_validator, noop_proxy_validator,
  tpm_test_attestation_verifier, noop_binding_proof_verifier,
}

pub record PkiConfig : Type 0 where
  pub inactive_purge_period : BlockNumber
  pub contract_offer_ttl_blocks : BlockNumber
  pub max_root_ttl_blocks : BlockNumber
  pub max_issuers_per_root : ℕ
  pub challenge_window_blocks : BlockNumber
  pub cert_deposit : Balance
  pub offer_deposit : Balance
  pub min_root_ttl_blocks : BlockNumber
  pub min_issuer_ttl_blocks : BlockNumber
  pub ttl_check_interval : BlockNumber
  pub template_deposit : Balance
  pub max_templates_per_issuer : ℕ
  pub currency : Provider
  pub find_author : Provider
  pub protocol_fee_recipient : AccountId
  pub protocol_fee_basis_points : ℕ
  pub block_creator_cap_basis_points : ℕ
  pub deposit_basis_points : ℕ
  pub min_deposit : Balance
  pub mint_fee_pop : Balance
  pub mint_fee_packed : Balance
  pub mint_fee_none : Balance
  pub attestation : Provider
  pub binding_proof_verifier : Provider
  pub proxy_validator : Provider

-- The two `#[cfg]` lines on the feature `runtime-benchmarks`.
abbrev pub proxy_validator_of : Bool → Provider
proxy_validator_of true = noop_proxy_validator
proxy_validator_of false = pallet_proxy_validator

abbrev pub pki_config : Bool → PkiConfig
pki_config runtime_benchmarks = record {
  inactive_purge_period = pki_inactive_purge_period;
  contract_offer_ttl_blocks = pki_contract_offer_ttl_blocks;
  max_root_ttl_blocks = pki_max_root_ttl_blocks;
  max_issuers_per_root = pki_max_issuers_per_root;
  challenge_window_blocks = pki_challenge_window_blocks;
  cert_deposit = pki_cert_deposit;
  offer_deposit = pki_offer_deposit;
  min_root_ttl_blocks = pki_min_root_ttl_blocks;
  min_issuer_ttl_blocks = pki_min_issuer_ttl_blocks;
  ttl_check_interval = pki_ttl_check_interval;
  template_deposit = pki_template_deposit;
  max_templates_per_issuer = pki_max_templates_per_issuer;
  currency = the_pallet balances;
  find_author = aura_account_finder;
  protocol_fee_recipient = pki_protocol_fee_recipient;
  protocol_fee_basis_points = pki_protocol_fee_basis_points;
  block_creator_cap_basis_points = pki_block_creator_cap_basis_points;
  deposit_basis_points = pki_deposit_basis_points;
  min_deposit = pki_min_deposit;
  mint_fee_pop = pki_mint_fee_pop;
  mint_fee_packed = pki_mint_fee_packed;
  mint_fee_none = pki_mint_fee_none;
  attestation = tpm_test_attestation_verifier;
  binding_proof_verifier = noop_binding_proof_verifier;
  proxy_validator = proxy_validator_of runtime_benchmarks;
}

pub record SecretSquirrelConfig : Type 0 where
  pub currency : Provider
  pub randomness : Provider
  pub scheduler : Provider
  pub find_author : Provider
  pub deposit_base : Balance
  pub deposit_per_byte : Balance
  pub deposit_per_block : Balance
  pub max_active_slots : ℕ

abbrev pub secret_squirrel_config : SecretSquirrelConfig
secret_squirrel_config = record {
  currency = the_pallet balances;
  randomness = the_pallet insecure_randomness;
  scheduler = the_pallet scheduler;
  find_author = aura_account_finder;
  deposit_base = ss_deposit_base;
  deposit_per_byte = ss_deposit_per_byte;
  deposit_per_block = ss_deposit_per_block;
  max_active_slots = ss_max_active_slots;
}
