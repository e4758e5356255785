-- ===== src/Runtime/Apis/ZkPki.antt =====
-- ZkPkiApi of runtime/src/apis.rs: every query goes to the query of the pallet.
use paseo_node.Base.{ℕ, Bool, Option, List, Bytes}
use paseo_node.Runtime.Types.{AccountId}
use paseo_node.Runtime.Apis.Types.{ApiTypes, Pallets}

module _ {A : ApiTypes} (pallets : Pallets A) where
  abbrev pub cert_status : Bytes → A.State → Option A.CertStatus
  cert_status thumbprint s = pallets.query_cert_status thumbprint s

  abbrev pub certs_by_issuer : AccountId → A.State → List A.CertSummary
  certs_by_issuer issuer s = pallets.query_certs_by_issuer issuer s

  abbrev pub certs_by_user : AccountId → A.State → List A.CertSummary
  certs_by_user user s = pallets.query_certs_by_user user s

  abbrev pub certs_by_root : AccountId → A.State → List A.CertSummary
  certs_by_root root s = pallets.query_certs_by_root root s

  abbrev pub entity_status : AccountId → A.State → Option A.EntityStatus
  entity_status address s = pallets.query_entity_status address s

  abbrev pub ek_lookup : AccountId → Bytes → A.State → Option Bytes
  ek_lookup root ek_hash s = pallets.query_ek_lookup root ek_hash s

  abbrev pub chain_valid_at : Bytes → ℕ → A.State → Bool
  chain_valid_at thumbprint block_number s = pallets.query_chain_valid_at thumbprint block_number s
