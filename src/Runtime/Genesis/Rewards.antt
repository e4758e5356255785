-- ===== src/Runtime/Genesis/Rewards.antt =====
-- Whom a block of the presets' chains rewards: `PnsBlockAuthor` and `AuraAccountFinder` of
-- runtime/src/configs/mod.rs with runtime/src/genesis_config_presets.rs.
use mathlib.Core.List.{Memᴰ}
use mathlib.Core.Path.{subst}
use paseo_node.Base.{
  ℕ, ◌%◌, ◌<◌, ◌≤◌, ◌≡◌, ◌≢◌, ◌⊎◌, inl, inr, refl, ◌∙◌, Option, some, List, Bytes, arith, length,
  All, All-get_elem?,
}
use paseo_node.Base.Outcome.{returns}
use paseo_node.Runtime.Types.{AccountId}
use paseo_node.Runtime.Constants.{max_authorities}
use paseo_node.Runtime.Author.{AuraTypes, find_author}
use paseo_node.Runtime.Author.Laws.{aura_payload, find_author-eq-scheduled}
use paseo_node.Runtime.Adapters.{PnsPallets, block_author}
use paseo_node.Runtime.Genesis.{
  GenesisTypes, GenesisPatch, testnet_genesis, development_config_genesis, local_config_genesis,
}
use paseo_node.Runtime.Genesis.Laws.{accounts_of, accounts_of-endow}
use paseo_node.Runtime.Genesis.Presets.{
  IsKeyring, four_accounts, local_accounts, development_patch, local_patch, development_lem,
  local_lem, local_accounts_iff, local_balances,
}
use paseo_node.Runtime.Genesis.Authors.{finder}

module _ (T : AuraTypes) where
  -- A sealed block has an author, who has what every authority has.
  sealed_author :
      (P : AccountId → Type 0) (authorities : List T.AuraId) (digests : List (Bytes × Bytes))
      (payload : Bytes) (slot : ℕ)
      → 0 < length authorities
      → length authorities ≤ max_authorities
      → All (λ id. P (T.account_id id)) authorities
      → aura_payload T digests ≡ some payload
      → T.decode_slot payload ≡ some slot
      → (a : AccountId) × (find_author T authorities digests ≡ some a) × P a
  sealed_author P authorities digests payload slot some_one few all sealed decoded =
      let (id, at, has) =
        All-get_elem? (λ id. P (T.account_id id)) authorities (slot % length authorities)
          (omega arith) all in
      (
        T.account_id id,
        find_author-eq-scheduled T authorities digests few ∙ rw (sealed, decoded, at) refl,
        has,
      )

-- What `sp_keyring` documents: the keys of the seeds `//Alice` and `//Bob` are those of the keyring
-- Alice and Bob, and Bob is listed and is neither of the keys `One` and `Two`.
pub record IsSeeded (G : GenesisTypes) (K : IsKeyring G) (account_id : G.AuraId → AccountId)
    : Type 0 where
  pub alice_account : account_id K.alice_aura ≡ G.to_account_id G.alice
  pub bob_account : account_id K.bob_aura ≡ G.to_account_id G.bob
  pub bob_listed : Memᴰ G.bob G.iter
  pub bob-ne-one : G.bob ≢ G.one
  pub bob-ne-two : G.bob ≢ G.two

module _ (G : GenesisTypes) (K : IsKeyring G) (engine_id : Bytes) (decode_slot : Bytes → Option ℕ)
    (account_id : G.AuraId → AccountId) (S : IsSeeded G K account_id) where
  abbrev AuthorsAreEndowed : GenesisPatch G → Type 0
  AuthorsAreEndowed p =
      (0 < length p.aura_authorities)
      × (length p.aura_authorities ≤ max_authorities)
      × All (λ id. Memᴰ (account_id id) (accounts_of p.balances)) p.aura_authorities

  endowed_by :
      (v : G.Sr25519Keyring) (id : G.AuraId) (p : GenesisPatch G) (accounts : List AccountId)
      → account_id id ≡ G.to_account_id v
      → accounts_of p.balances ≡ accounts
      → Memᴰ (G.to_account_id v) accounts
      → Memᴰ (account_id id) (accounts_of p.balances)
  endowed_by v id p accounts same balances m = rw (same, balances) m

  development_endowed : AuthorsAreEndowed (development_patch G K)
  unfolding testnet_genesis
  development_endowed = (
    omega arith,
    omega arith,
    (
      endowed_by G.alice K.alice_aura (development_patch G K) (four_accounts G K) S.alice_account
          (accounts_of-endow (four_accounts G K)) (Memᴰ.head refl),
      tt,
    ),
  )

  local_endowed : AuthorsAreEndowed (local_patch G K)
  unfolding testnet_genesis
  local_endowed = (
    omega arith,
    omega arith,
    (
      endowed_by G.alice K.alice_aura (local_patch G K) (local_accounts G K) S.alice_account
          (local_balances G K)
          ((local_accounts_iff G K _).1
            (G.alice, K.alice_listed, K.alice-ne-one, K.alice-ne-two, refl)),
      (
        endowed_by G.bob K.bob_aura (local_patch G K) (local_accounts G K) S.bob_account
            (local_balances G K)
            ((local_accounts_iff G K _).1 (G.bob, S.bob_listed, S.bob-ne-one, S.bob-ne-two, refl)),
        tt,
      ),
    ),
  )

  preset_endowed :
      (p : GenesisPatch G)
      → (development_config_genesis G ≡ returns p) ⊎ (local_config_genesis G ≡ returns p)
      → AuthorsAreEndowed p
  preset_endowed p (inl made) =
      let same : development_patch G K ≡ p = cc (made, development_lem G K) in
      subst AuthorsAreEndowed same development_endowed
  preset_endowed p (inr made) =
      let same : local_patch G K ≡ p = cc (made, local_lem G K) in
      subst AuthorsAreEndowed same local_endowed

  -- In a chain of either preset, whose genesis sets Aura's authorities and the balances, a block
  -- that is sealed with a slot has an author for PNS, and the author is one of the accounts that
  -- the genesis endows. The author pallet finds the author by the block's digests, and the keys of
  -- the seeds `//Alice` and `//Bob` are those of the keyring's Alice and Bob.
  pub block_author_endowed :
      (p : GenesisPatch G)
      → (development_config_genesis G ≡ returns p) ⊎ (local_config_genesis G ≡ returns p)
      → (P : PnsPallets) (s : P.State) (digests : List (Bytes × Bytes)) (payload : Bytes) (slot : ℕ)
      → P.author s
        ≡ find_author (finder G K engine_id decode_slot account_id) p.aura_authorities digests
      → aura_payload (finder G K engine_id decode_slot account_id) digests ≡ some payload
      → decode_slot payload ≡ some slot
      → (a : AccountId) × (block_author P s ≡ some a) × Memᴰ a (accounts_of p.balances)
  unfolding block_author
  block_author_endowed p preset P s digests payload slot reads sealed decoded =
      let (some_one, few, all) = preset_endowed p preset in
      let (a, found, endowed) =
        sealed_author (finder G K engine_id decode_slot account_id)
          (λ a. Memᴰ a (accounts_of p.balances)) p.aura_authorities digests payload slot some_one
          few all sealed decoded in
      (a, reads ∙ found, endowed)
