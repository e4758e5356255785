-- ===== src/Runtime/Genesis/Laws.antt =====
-- What a genesis patch of runtime/src/genesis_config_presets.rs needs for a chain to start.
use mathlib.Core.List.{Memᴰ}
use paseo_node.Base.{
  ℕ, ◌+◌, ◌*◌, ◌^◌, ◌≤◌, ◌<◌, ◌≡◌, refl, ap, sym, ◌∙◌, some, List, [], ◌∷◌, map, length, length-map,
  All, arith,
}
use paseo_node.Base.Distinct.{Distinct}
use paseo_node.Runtime.Types.{AccountId, Balance}
use paseo_node.Runtime.Constants.{existential_deposit, max_authorities}
use paseo_node.Runtime.Genesis.{GenesisTypes, GenesisPatch, testnet_genesis}

abbrev pub accounts_of : List (AccountId × Balance) → List AccountId
accounts_of = map (λ b. b.0)

abbrev pub total : List (AccountId × Balance) → Balance
total [] = 0
total ((_, b) ∷ bs) = b + total bs

abbrev pub IsNonincreasing : List ℕ → Type 0
IsNonincreasing [] = Unit
IsNonincreasing (x ∷ []) = Unit
IsNonincreasing (x ∷ y ∷ xs) = (y ≤ x) × IsNonincreasing (y ∷ xs)

-- A patch that the pallets accept: as many Aura as Grandpa authorities, at least one and no more
-- than the bound; Grandpa weights of one; no account endowed twice or below the existential
-- deposit; an issuance in the range of `u128`; a sudo account that is endowed and official; a
-- price for each of the 11 lengths of a label, none above that of a shorter label.
pub record IsWellFormed {T : GenesisTypes} (p : GenesisPatch T) : Type 0 where
  pub paired : length p.aura_authorities ≡ length p.grandpa_authorities
  pub authored : 0 < length p.aura_authorities
  pub bounded : length p.aura_authorities ≤ max_authorities
  pub weighted : All (λ g. g.1 ≡ 1) p.grandpa_authorities
  pub distinct : Distinct (accounts_of p.balances)
  pub funded : All (λ b. existential_deposit ≤ b.1) p.balances
  pub issuance : total p.balances < 2 ^ 128
  pub sudo : AccountId
  pub sudo_set : p.sudo_key ≡ some sudo
  pub sudo_endowed : Memᴰ sudo (accounts_of p.balances)
  pub official_set : p.registry_official ≡ some sudo
  pub priced : length p.oracle_base_prices ≡ 11
  pub rented : length p.oracle_rent_prices ≡ 11
  pub decreasing : IsNonincreasing p.oracle_base_prices

abbrev pub endow : AccountId → AccountId × Balance
endow k = (k, 2 ^ 60)

pub accounts_of-endow : (ks : List AccountId) → accounts_of (map endow ks) ≡ ks
accounts_of-endow [] = refl
accounts_of-endow (k ∷ ks) = ap (λ r. k ∷ r) (accounts_of-endow ks)

total-endow : (ks : List AccountId) → total (map endow ks) ≡ length ks * 2 ^ 60
total-endow [] = refl
total-endow (k ∷ ks) = omega (arith, total-endow ks)

funded-endow : (ks : List AccountId) → All (λ b. existential_deposit ≤ b.1) (map endow ks)
funded-endow [] = tt
funded-endow (k ∷ ks) = (omega arith, funded-endow ks)

weighted-ones {ℓ κ} :
    {A : Type ℓ} {B : Type κ} (xs : List (A × B))
    → All {A = B × ℕ} (λ g. g.1 ≡ 1) (map (λ x. (x.1, 1)) xs)
weighted-ones [] = tt
weighted-ones (x ∷ xs) = (refl, weighted-ones xs)

-- With 1 to 32 authorities, at most 2 ^ 67 distinct endowed accounts, and the root among them,
-- the patch is well formed.
pub testnet_genesis-IsWellFormed :
    (T : GenesisTypes) (initial_authorities : List (T.AuraId × T.GrandpaId))
    (endowed_accounts : List AccountId) (root : AccountId)
    → 0 < length initial_authorities
    → length initial_authorities ≤ max_authorities
    → length endowed_accounts ≤ 2 ^ 67
    → Distinct endowed_accounts
    → Memᴰ root endowed_accounts
    → IsWellFormed (testnet_genesis T initial_authorities endowed_accounts root)
unfolding testnet_genesis
testnet_genesis-IsWellFormed T initial_authorities endowed_accounts root some_one few small d m =
    record {
      paired = length-map _ initial_authorities ∙ sym (length-map _ initial_authorities);
      authored = rw length-map some_one;
      bounded = rw length-map few;
      weighted = weighted-ones initial_authorities;
      distinct = rw (accounts_of-endow endowed_accounts) d;
      funded = funded-endow endowed_accounts;
      issuance = rw (total-endow endowed_accounts) (omega arith);
      sudo = root;
      sudo_set = refl;
      sudo_endowed = rw (accounts_of-endow endowed_accounts) m;
      official_set = refl;
      priced = refl;
      rented = refl;
      decreasing = omega arith;
    }
