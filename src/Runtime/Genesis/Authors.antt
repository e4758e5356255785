-- ===== src/Runtime/Genesis/Authors.antt =====
-- Who authors the blocks of the presets' chains: runtime/src/genesis_config_presets.rs with
-- `AuraAccountFinder` of runtime/src/configs/mod.rs.
use paseo_node.Base.{
  ℕ, zero, suc, ◌%◌, ◌<◌, ◌≤◌, ◌≡◌, refl, ap, ◌∙◌, Option, some, List, [], ◌∷◌, Bytes, arith, ◌==◌,
  nat_eq, if◌then◌else◌, get_elem?, length,
}
use paseo_node.Base.Outcome.{returns}
use paseo_node.Base.Try.{◌>>=◌}
use paseo_node.Runtime.Types.{AccountId}
use paseo_node.Runtime.Author.{AuraTypes, find_author}
use paseo_node.Runtime.Author.Laws.{aura_payload, scheduled, find_author-eq-scheduled}
use paseo_node.Runtime.Genesis.{GenesisTypes, GenesisPatch, testnet_genesis, local_config_genesis}
use paseo_node.Runtime.Genesis.Presets.{IsKeyring, local_patch, local_lem}

-- The finder's types with the authorities of the presets.
module _ (T : GenesisTypes) (K : IsKeyring T) (engine_id : Bytes) (decode_slot : Bytes → Option ℕ)
    (account_id : T.AuraId → AccountId) where
  abbrev pub finder : AuraTypes
  finder = record {
    AuraId = T.AuraId;
    engine_id = engine_id;
    decode_slot = decode_slot;
    account_id = account_id;
  }

  find_author_of_slot :
      (authorities : List T.AuraId) (digests : List (Bytes × Bytes)) (payload : Bytes) (slot : ℕ)
      → length authorities ≤ 32
      → aura_payload finder digests ≡ some payload
      → decode_slot payload ≡ some slot
      → find_author finder authorities digests ≡ scheduled finder authorities slot
  find_author_of_slot authorities digests payload slot h sealed decoded =
      find_author-eq-scheduled finder authorities digests h ∙ rw (sealed, decoded) refl

  local_authorities :
      (p : GenesisPatch T)
      → local_config_genesis T ≡ returns p
      → p.aura_authorities ≡ K.alice_aura ∷ K.bob_aura ∷ []
  unfolding testnet_genesis
  local_authorities p made =
      let same : p ≡ local_patch T K = cc (made, local_lem T K) in
      ap (λ (q : GenesisPatch T). q.aura_authorities) same

  turn_of :
      (n : ℕ)
      → n < 2
      → (get_elem? (K.alice_aura ∷ K.bob_aura ∷ []) n >>= λ authority. some (account_id authority))
        ≡ some (account_id (if n == 0 then K.alice_aura else K.bob_aura))
  turn_of zero h = refl
  turn_of (suc zero) h = refl
  turn_of (suc (suc n)) h = absurd (omega arith)

  -- In a chain of the local preset, whose genesis sets Aura's authorities, the author that the
  -- runtime finds for a block sealed in an even slot is Alice and in an odd slot is Bob, whatever
  -- other digests the block has.
  pub local_author :
      (p : GenesisPatch T)
      → local_config_genesis T ≡ returns p
      → (digests : List (Bytes × Bytes)) (payload : Bytes) (slot : ℕ)
      → aura_payload finder digests ≡ some payload
      → decode_slot payload ≡ some slot
      → find_author finder p.aura_authorities digests
        ≡ some (account_id (if slot % 2 == 0 then K.alice_aura else K.bob_aura))
  local_author p made digests payload slot sealed decoded = rw (local_authorities p made) (
      find_author_of_slot (K.alice_aura ∷ K.bob_aura ∷ []) digests payload slot (omega arith) sealed
        decoded
      ∙ turn_of (slot % 2) (omega arith))
