-- ===== src/Runtime/Author.antt =====
-- `AuraAccountFinder` of runtime/src/configs/mod.rs: the author of a block from its digests.
pub mod Laws
use paseo_node.Base.{
  ℕ, ◌%◌, Option, none, some, List, [], ◌∷◌, Bytes, length, get_elem?, is_empty, as_u64, as_usize,
  ◌==◌, list_eq, nat_eq, if◌then◌else◌,
}
use paseo_node.Base.Try.{◌>>=◌}
use paseo_node.Runtime.Types.{AccountId}

-- What the finder uses of `sp_consensus_aura`, of the codec and of `sp_core`.
pub record AuraTypes : Type 1 where
  pub AuraId : Type 0
  pub engine_id : Bytes
  pub decode_slot : Bytes → Option ℕ
  pub account_id : AuraId → AccountId

module _ (T : AuraTypes) where
  open T use {AuraId, engine_id, decode_slot, account_id}

  -- What follows the decoded slot in the loop's body: the authority whose turn the slot is.
  unfoldable pub author_at : List AuraId → ℕ → Option AccountId
  author_at authorities slot = if is_empty authorities then none else do
    let idx = slot % as_u64 (length authorities)
    authority ← get_elem? authorities (as_usize idx)
    some (account_id authority)

  -- `authorities` is `pallet_aura::Authorities`. The first digest of the Aura engine decides.
  unfoldable pub find_author : List AuraId → List (Bytes × Bytes) → Option AccountId
  unfolding author_at
  find_author authorities [] = none
  find_author authorities ((engine, payload) ∷ digests) =
      let rest = find_author authorities digests in
      let here = decode_slot payload >>= author_at authorities in
      if engine == engine_id then here else rest
