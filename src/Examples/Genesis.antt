-- ===== src/Examples/Genesis.antt =====
-- A keyring of six keys, and the presets over it.
use Prim.Native.String.{String}
use mathlib.Core.List.{Memᴰ}
use text.Mathlib.Text.{◌==◌ as str_eq}
use paseo_node.Base.{
  ℕ, ◌<◌, ◌≡◌, refl, ◌≢◌, ◌↔◌, Option, none, some, List, [], ◌∷◌, map, All, nat_eq, arith,
  if◌then◌else◌,
}
use paseo_node.Base.Distinct.{Distinct}
use paseo_node.Base.Outcome.{returns}
use paseo_node.Runtime.Types.{AccountId}
use paseo_node.Runtime.Genesis.{
  GenesisTypes, GenesisPatch, testnet_genesis, development_config_genesis, local_config_genesis,
  authority_keys_from_seed,
}
use paseo_node.Runtime.Genesis.Laws.{accounts_of, IsWellFormed}
use paseo_node.Runtime.Genesis.Presets.{IsKeyring, presets-IsWellFormed}

abbrev public : String → Option ℕ
public s = if str_eq s "//Alice" then some 1 else if str_eq s "//Bob" then some 2 else none

-- Keys are numbers, with Alice, Bob and their stashes first and `One` and `Two` last.
abbrev pub toy : GenesisTypes
toy = record {
  AuraId = ℕ;
  GrandpaId = ℕ;
  aura_public = public;
  grandpa_public = public;
  Sr25519Keyring = ℕ;
  keyring_eq = nat_eq;
  iter = 1 ∷ 2 ∷ 3 ∷ 4 ∷ 5 ∷ 6 ∷ [];
  alice = 1;
  bob = 2;
  alice_stash = 3;
  bob_stash = 4;
  one = 5;
  two = 6;
  to_account_id = λ v. v ∷ [];
  Record = Unit {0};
  default_record = tt;
  native_basenode = [];
  dev_runtime_preset = "development";
  local_testnet_runtime_preset = "local_testnet";
}

not_listed : (a : ℕ) (xs : List ℕ) → All (λ x. a < x) xs → ¬ (Memᴰ a xs)
not_listed a [] h m = elim m [ ]
not_listed a (x ∷ xs) (h, hs) (Memᴰ.head e) = absurd (omega arith)
not_listed a (x ∷ xs) (h, hs) (Memᴰ.tail m) = not_listed a xs hs m

IsIncreasing : List ℕ → Type 0
IsIncreasing [] = Unit
IsIncreasing (x ∷ xs) = All (λ y. x < y) xs × IsIncreasing xs

Distinct-of_IsIncreasing : (xs : List ℕ) → IsIncreasing xs → Distinct xs
unfolding IsIncreasing
Distinct-of_IsIncreasing [] h = tt
Distinct-of_IsIncreasing (x ∷ xs) (h, hs) = (not_listed x xs h, Distinct-of_IsIncreasing xs hs)

-- Increasing from 1 on.
pub six-Distinct : Distinct {A = ℕ} (1 ∷ 2 ∷ 3 ∷ 4 ∷ 5 ∷ 6 ∷ [])
unfolding IsIncreasing
six-Distinct = Distinct-of_IsIncreasing (1 ∷ 2 ∷ 3 ∷ 4 ∷ 5 ∷ 6 ∷ []) (omega arith)

pub four-Distinct : Distinct {A = ℕ} (1 ∷ 2 ∷ 3 ∷ 4 ∷ [])
unfolding IsIncreasing
four-Distinct = Distinct-of_IsIncreasing (1 ∷ 2 ∷ 3 ∷ 4 ∷ []) (omega arith)

pub singleton_injective : (v w : ℕ) → v ∷ [] ≡ w ∷ [] → v ≡ w
singleton_injective v w e = cc

abbrev pub toy-IsKeyring : IsKeyring toy
toy-IsKeyring = record {
  alice_aura = 1;
  alice_aura_derived = refl;
  alice_grandpa = 1;
  alice_grandpa_derived = refl;
  bob_aura = 2;
  bob_aura_derived = refl;
  bob_grandpa = 2;
  bob_grandpa_derived = refl;
  four_distinct = four-Distinct;
  alice_listed = Memᴰ.head refl;
  alice-ne-one = omega arith;
  alice-ne-two = omega arith;
  iter_distinct = six-Distinct;
  iter_small = omega arith;
  accounts_differ = singleton_injective;
}

local_endows_four :
    (q : GenesisPatch toy)
    → local_config_genesis toy ≡ returns q
    → map (λ b. b.0) q.balances ≡ (1 ∷ []) ∷ (2 ∷ []) ∷ (3 ∷ []) ∷ (4 ∷ []) ∷ []
unfolding local_config_genesis testnet_genesis authority_keys_from_seed
local_endows_four q e = ground arith

presets-IsWellFormed_example :
    ((p : GenesisPatch toy) × (development_config_genesis toy ≡ returns p) × IsWellFormed p)
    × ((p : GenesisPatch toy) × (local_config_genesis toy ≡ returns p)
        × IsWellFormed p
        × ((a : AccountId)
            → Memᴰ a (accounts_of p.balances)
              ↔ ((v : ℕ) × Memᴰ v toy.iter × (v ≢ 5) × (v ≢ 6) × (a ≡ v ∷ []))))
presets-IsWellFormed_example = presets-IsWellFormed toy toy-IsKeyring
