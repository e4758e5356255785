-- ===== src/Runtime/Genesis.antt =====
-- The genesis presets, runtime/src/genesis_config_presets.rs.
pub mod Laws
pub mod Presets
pub mod Authors
pub mod Rewards
pub mod Listed
use Prim.Native.String.{String, ◌++◌ as ◌<>◌}
use text.Mathlib.Text.{◌==◌ as str_eq}
use paseo_node.Base.{
  ℕ, ◌*◌, ◌/◌, ◌^◌, Bool, true, false, not, ◌&&◌, Option, none, some, List, [], ◌∷◌, map, keep,
  codes, Bytes, Eq, ◌==◌, if◌then◌else◌,
}
use paseo_node.Base.Outcome.{Outcome, returns, panics, expect, ◌>>=◌}
use paseo_node.Runtime.Types.{AccountId, Balance, DomainHash}

-- What the presets use of `sp_core`, `sp_keyring`, `pns_types` and `sp_genesis_builder`. A seed
-- that is no key derivation has no key.
pub record GenesisTypes : Type 1 where
  pub AuraId : Type 0
  pub GrandpaId : Type 0
  pub aura_public : String → Option AuraId
  pub grandpa_public : String → Option GrandpaId
  pub Sr25519Keyring : Type 0
  pub keyring_eq : Eq Sr25519Keyring
  pub iter : List Sr25519Keyring
  pub alice : Sr25519Keyring
  pub bob : Sr25519Keyring
  pub alice_stash : Sr25519Keyring
  pub bob_stash : Sr25519Keyring
  pub one : Sr25519Keyring
  pub two : Sr25519Keyring
  pub to_account_id : Sr25519Keyring → AccountId
  pub Record : Type 0
  pub default_record : Record
  pub native_basenode : DomainHash
  pub dev_runtime_preset : String
  pub local_testnet_runtime_preset : String

abbrev genesis_unit : Balance
genesis_unit = 1_000_000_000_000

-- Registration fees by the length of the label, from 1 character to 11 and more.
abbrev pub base_prices : List Balance
base_prices =
    (1000 * genesis_unit)
    ∷ (100 * genesis_unit)
    ∷ (45 * genesis_unit)
    ∷ (25 * genesis_unit)
    ∷ (10 * genesis_unit)
    ∷ (genesis_unit / 2)
    ∷ (genesis_unit / 2)
    ∷ (genesis_unit / 2)
    ∷ (genesis_unit / 2)
    ∷ (genesis_unit / 2)
    ∷ (genesis_unit / 2)
    ∷ []

abbrev pub reserved_names : List Bytes
reserved_names = map codes (
    "polkadot" ∷ "kusama" ∷ "paseo" ∷ "westend" ∷ "fellowship" ∷ "hub" ∷ "polkadothub" ∷ "assethub"
    ∷ "collectives" ∷ "pusd" ∷ "pop" ∷ "revive" ∷ "jam" ∷ "people" ∷ "dap" ∷ [])

module _ (T : GenesisTypes) where
  open T use {
    AuraId, GrandpaId, Sr25519Keyring, keyring_eq, alice, bob, alice_stash, bob_stash, one, two,
    to_account_id,
  }

  -- A token and a class of `pns_registrar::nft::GenesisConfig`.
  pub record GenesisToken : Type 0 where
    pub owner : AccountId
    pub metadata : Bytes
    pub token_record : T.Record
    pub token_id : DomainHash

  pub record GenesisClass : Type 0 where
    pub owner : AccountId
    pub metadata : Bytes
    pub class_tokens : List GenesisToken

  -- The fields of `RuntimeGenesisConfig` that the patch sets to other than the default.
  pub record GenesisPatch : Type 0 where
    pub balances : List (AccountId × Balance)
    pub aura_authorities : List AuraId
    pub grandpa_authorities : List (GrandpaId × ℕ)
    pub sudo_key : Option AccountId
    pub nft_tokens : List GenesisClass
    pub oracle_base_prices : List Balance
    pub oracle_rent_prices : List Balance
    pub oracle_init_rate : ℕ
    pub registry_official : Option AccountId
    pub registrar_reserved_names : List Bytes

  unfoldable pub testnet_genesis :
      List (AuraId × GrandpaId) → List AccountId → AccountId → GenesisPatch
  testnet_genesis initial_authorities endowed_accounts root = record {
    balances = map (λ k. (k, 2 ^ 60)) endowed_accounts;
    aura_authorities = map (λ x. x.0) initial_authorities;
    grandpa_authorities = map (λ x. (x.1, 1)) initial_authorities;
    sudo_key = some root;
    nft_tokens =
        record {
          owner = root;
          metadata = [];
          class_tokens =
              record {
                owner = root;
                metadata = [];
                token_record = T.default_record;
                token_id = T.native_basenode;
              }
              ∷ [];
        }
        ∷ [];
    oracle_base_prices = base_prices;
    oracle_rent_prices = 0 ∷ 0 ∷ 0 ∷ 0 ∷ 0 ∷ 0 ∷ 0 ∷ 0 ∷ 0 ∷ 0 ∷ 0 ∷ [];
    oracle_init_rate = 1;
    registry_official = some root;
    registrar_reserved_names = reserved_names;
  }

  unfoldable pub authority_keys_from_seed : String → Outcome (AuraId × GrandpaId)
  authority_keys_from_seed s = do
    aura ← expect (T.aura_public ("//" <> s))
    grandpa ← expect (T.grandpa_public ("//" <> s))
    returns (aura, grandpa)

  unfoldable pub development_config_genesis : Outcome GenesisPatch
  unfolding authority_keys_from_seed
  development_config_genesis = do
    first ← authority_keys_from_seed "Alice"
    returns (
        testnet_genesis (first ∷ [])
          (to_account_id alice
            ∷ to_account_id bob
            ∷ to_account_id alice_stash
            ∷ to_account_id bob_stash
            ∷ [])
          (to_account_id alice))

  -- `v != &Sr25519Keyring::One && v != &Sr25519Keyring::Two`
  abbrev pub is_endowed : Sr25519Keyring → Bool
  is_endowed v = not (◌==◌ ⦃o = keyring_eq⦄ v one) && not (◌==◌ ⦃o = keyring_eq⦄ v two)

  unfoldable pub local_config_genesis : Outcome GenesisPatch
  unfolding authority_keys_from_seed
  local_config_genesis = do
    first ← authority_keys_from_seed "Alice"
    second ← authority_keys_from_seed "Bob"
    returns (
        testnet_genesis (first ∷ second ∷ []) (map to_account_id (keep is_endowed T.iter))
          (to_account_id alice))

  -- `to_string` is `serde_json::to_string` followed by `into_bytes`.
  module _ (to_string : GenesisPatch → Option Bytes) where
    unfoldable pub get_preset : String → Outcome (Option Bytes)
    get_preset id =
        let write =
          λ (patch : GenesisPatch). expect (to_string patch) >>= (λ text. returns (some text)) in
        if str_eq id T.dev_runtime_preset
        then development_config_genesis >>= write
        else if str_eq id T.local_testnet_runtime_preset
        then local_config_genesis >>= write
        else returns none

  unfoldable pub preset_names : List String
  preset_names = T.dev_runtime_preset ∷ T.local_testnet_runtime_preset ∷ []
