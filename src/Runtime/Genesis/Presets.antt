-- ===== src/Runtime/Genesis/Presets.antt =====
-- The two presets of runtime/src/genesis_config_presets.rs, and their look-up by name.
use Prim.Native.String.{String, ◌++◌ as ◌<>◌}
use mathlib.Core.List.{Memᴰ}
use text.Mathlib.TextEquality.{eq_iff}
use text.Mathlib.Text.{◌==◌ as str_eq}
use paseo_node.Base.{
  ◌^◌, ◌≤◌, ◌≡◌, ◌≢◌, ◌↔◌, refl, true, false, Option, none, some, List, [], ◌∷◌, map, keep, length,
  length-map, Bytes, arith, Bool-cases, inl, inr, ◌⊎◌,
}
use paseo_node.Base.Distinct.{
  Distinct, mem-map_of, mem-map, map-Distinct, mem-keep, mem-keep_of, keep-Distinct, length-keep,
}
use paseo_node.Base.Outcome.{returns}
use paseo_node.Runtime.Types.{AccountId}
use paseo_node.Runtime.Genesis.{
  GenesisTypes, GenesisPatch, testnet_genesis, authority_keys_from_seed, development_config_genesis,
  is_endowed, local_config_genesis, get_preset, preset_names,
}
use paseo_node.Runtime.Genesis.Laws.{
  accounts_of, accounts_of-endow, IsWellFormed, testnet_genesis-IsWellFormed,
}

-- The development keyring: the seeds of Alice and Bob are derivations, the keys are listed once
-- each, and different keys have different accounts.
pub record IsKeyring (T : GenesisTypes) : Type 0 where
  pub alice_aura : T.AuraId
  pub alice_aura_derived : T.aura_public ("//" <> "Alice") ≡ some alice_aura
  pub alice_grandpa : T.GrandpaId
  pub alice_grandpa_derived : T.grandpa_public ("//" <> "Alice") ≡ some alice_grandpa
  pub bob_aura : T.AuraId
  pub bob_aura_derived : T.aura_public ("//" <> "Bob") ≡ some bob_aura
  pub bob_grandpa : T.GrandpaId
  pub bob_grandpa_derived : T.grandpa_public ("//" <> "Bob") ≡ some bob_grandpa
  pub four_distinct : Distinct (T.alice ∷ T.bob ∷ T.alice_stash ∷ T.bob_stash ∷ [])
  pub alice_listed : Memᴰ T.alice T.iter
  pub alice-ne-one : T.alice ≢ T.one
  pub alice-ne-two : T.alice ≢ T.two
  pub iter_distinct : Distinct T.iter
  pub iter_small : length T.iter ≤ 2 ^ 67
  pub accounts_differ : (v w : T.Sr25519Keyring) → T.to_account_id v ≡ T.to_account_id w → v ≡ w

module _ (T : GenesisTypes) (K : IsKeyring T) where
  abbrev pub local_accounts : List AccountId
  local_accounts = map T.to_account_id (keep (is_endowed T) T.iter)

  is_endowed_iff : (v : T.Sr25519Keyring) → (is_endowed T v ≡ true) ↔ ((v ≢ T.one) × (v ≢ T.two))
  is_endowed_iff v = ground (arith, T.keyring_eq.same_iff v T.one, T.keyring_eq.same_iff v T.two)

  local_alice : Memᴰ (T.to_account_id T.alice) local_accounts
  local_alice = mem-map_of T.to_account_id (keep (is_endowed T) T.iter) T.alice (
      mem-keep_of (is_endowed T) T.iter T.alice K.alice_listed
        ((is_endowed_iff T.alice).1 (K.alice-ne-one, K.alice-ne-two)))

  abbrev pub alice_keys : T.AuraId × T.GrandpaId
  alice_keys = (K.alice_aura, K.alice_grandpa)

  abbrev pub bob_keys : T.AuraId × T.GrandpaId
  bob_keys = (K.bob_aura, K.bob_grandpa)

  alice_keys_lem : authority_keys_from_seed T "Alice" ≡ returns alice_keys
  unfolding authority_keys_from_seed
  alice_keys_lem = rw (K.alice_aura_derived, K.alice_grandpa_derived)

  bob_keys_lem : authority_keys_from_seed T "Bob" ≡ returns bob_keys
  unfolding authority_keys_from_seed
  bob_keys_lem = rw (K.bob_aura_derived, K.bob_grandpa_derived)

  abbrev pub four_accounts : List AccountId
  four_accounts = map T.to_account_id (T.alice ∷ T.bob ∷ T.alice_stash ∷ T.bob_stash ∷ [])

  abbrev pub development_patch : GenesisPatch T
  development_patch = testnet_genesis T (alice_keys ∷ []) four_accounts (T.to_account_id T.alice)

  abbrev pub local_patch : GenesisPatch T
  local_patch =
      testnet_genesis T (alice_keys ∷ bob_keys ∷ []) local_accounts (T.to_account_id T.alice)

  pub development_lem : development_config_genesis T ≡ returns development_patch
  development_lem = unfold development_config_genesis in rw alice_keys_lem

  pub local_lem : local_config_genesis T ≡ returns local_patch
  local_lem = unfold local_config_genesis in rw (alice_keys_lem, bob_keys_lem)

  development-IsWellFormed : IsWellFormed development_patch
  development-IsWellFormed =
      testnet_genesis-IsWellFormed T (alice_keys ∷ []) four_accounts (T.to_account_id T.alice)
        (omega arith) (omega arith) (omega arith)
        (map-Distinct T.to_account_id (T.alice ∷ T.bob ∷ T.alice_stash ∷ T.bob_stash ∷ [])
          K.accounts_differ K.four_distinct)
        (Memᴰ.head refl)

  local-IsWellFormed : IsWellFormed local_patch
  local-IsWellFormed =
      testnet_genesis-IsWellFormed T (alice_keys ∷ bob_keys ∷ []) local_accounts
        (T.to_account_id T.alice) (omega arith) (omega arith)
        (omega (
          arith,
          length-map T.to_account_id (keep (is_endowed T) T.iter),
          length-keep (is_endowed T) T.iter,
          K.iter_small,
        ))
        (map-Distinct T.to_account_id _ K.accounts_differ
          (keep-Distinct (is_endowed T) T.iter K.iter_distinct))
        local_alice

  pub local_accounts_iff :
      (a : AccountId)
      → Memᴰ a local_accounts ↔ (
          (v : T.Sr25519Keyring) × Memᴰ v T.iter
          × (v ≢ T.one)
          × (v ≢ T.two)
          × (a ≡ T.to_account_id v))
  local_accounts_iff a = (
    λ m.
        let (v, kept, e) = mem-map T.to_account_id (keep (is_endowed T) T.iter) a m in
        let (listed, endowed) = mem-keep (is_endowed T) T.iter v kept in
        let (not_one, not_two) = (is_endowed_iff v).0 endowed in (v, listed, not_one, not_two, e),
    λ (v, listed, not_one, not_two, e). rw e (
        mem-map_of T.to_account_id _ v
          (mem-keep_of (is_endowed T) T.iter v listed ((is_endowed_iff v).1 (not_one, not_two)))),
  )

  pub local_balances : accounts_of local_patch.balances ≡ local_accounts
  unfolding testnet_genesis
  local_balances = accounts_of-endow local_accounts

  -- Both presets build a well-formed patch without a panic, and the local one endows exactly the
  -- accounts of the listed keys other than the keys `One` and `Two`.
  pub presets-IsWellFormed :
      ((p : GenesisPatch T) × (development_config_genesis T ≡ returns p) × IsWellFormed p)
      × ((p : GenesisPatch T) × (local_config_genesis T ≡ returns p)
          × IsWellFormed p
          × ((a : AccountId)
              → Memᴰ a (accounts_of p.balances) ↔ (
                  (v : T.Sr25519Keyring) × Memᴰ v T.iter
                  × (v ≢ T.one)
                  × (v ≢ T.two)
                  × (a ≡ T.to_account_id v))))
  presets-IsWellFormed = (
    (development_patch, development_lem, development-IsWellFormed),
    (local_patch, local_lem, local-IsWellFormed, λ a. rw local_balances (local_accounts_iff a)),
  )

  not-mem-preset_names :
      (id : String)
      → str_eq id T.dev_runtime_preset ≡ false
      → str_eq id T.local_testnet_runtime_preset ≡ false
      → ¬ (Memᴰ id (preset_names T))
  unfolding preset_names
  not-mem-preset_names id not_dev not_local (Memᴰ.head e) =
      cc ((eq_iff id T.dev_runtime_preset).1 e)
  not-mem-preset_names id not_dev not_local (Memᴰ.tail (Memᴰ.head e)) =
      cc ((eq_iff id T.local_testnet_runtime_preset).1 e)
  not-mem-preset_names id not_dev not_local (Memᴰ.tail (Memᴰ.tail m)) = elim m [ ]

  -- Where every patch has a text, a look-up does not panic: the two names of the list of presets
  -- have a text, and no other name has.
  pub get_preset_total :
      (to_string : GenesisPatch T → Option Bytes)
      → ((p : GenesisPatch T) → (b : Bytes) × (to_string p ≡ some b))
      → (id : String)
      → ((b : Bytes) × (get_preset T to_string id ≡ returns (some b)) × Memᴰ id (preset_names T))
        ⊎ ((get_preset T to_string id ≡ returns none) × ¬ (Memᴰ id (preset_names T)))
  unfolding preset_names
  get_preset_total to_string written id = elim (Bool-cases (str_eq id T.dev_runtime_preset)) [
    | inl dev ↦
        let (b, text) = written development_patch in
        inl
          (b, unfold get_preset in rw (dev, development_lem, text), Memᴰ.head ((eq_iff _ _).0 dev))
    | inr not_dev ↦ elim (Bool-cases (str_eq id T.local_testnet_runtime_preset)) [
      | inl local ↦
          let (b, text) = written local_patch in
          inl (
            b,
            unfold get_preset in rw (not_dev, local, local_lem, text),
            Memᴰ.tail (Memᴰ.head ((eq_iff _ _).0 local)),
          )
      | inr not_local ↦
          inr (
            unfold get_preset in rw (not_dev, not_local),
            not-mem-preset_names id not_dev not_local,
          )
    ]
  ]
