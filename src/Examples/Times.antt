-- ===== src/Examples/Times.antt =====
-- A chain of the local preset whose slots are bytes, and clocks in its first minute.
use mathlib.Core.List.{Memᴰ}
use paseo_node.Base.{
  ◌%◌, length, get_elem?, inr, ℕ, ◌+◌, ◌*◌, ◌/◌, ◌≤◌, ◌≡◌, refl, Option, none, some, List, [], ◌∷◌,
  Bytes, codes, arith, ok,
}
use paseo_node.Runtime.Types.{AccountId, Moment}
use paseo_node.Runtime.Adapters.{PnsPallets, block_author}
use paseo_node.Runtime.Genesis.{testnet_genesis}
use paseo_node.Runtime.Genesis.Laws.{accounts_of}
use paseo_node.Runtime.Genesis.Rewards.{IsSeeded, block_author_endowed}
use paseo_node.Base.Outcome.{returns}
use paseo_node.Runtime.Apis.Calls.{slot_duration, authorities}
use paseo_node.Runtime.Apis.Authors.{api_finder, find_author-call}
use paseo_node.Runtime.Apis.Dispatch.{call}
use paseo_node.Examples.Calls.{small}
use paseo_node.Examples.Adapters
use paseo_node.Runtime.Author.{find_author, author_at}
use paseo_node.Runtime.Config.Frame.{aura_config}
use paseo_node.Runtime.Genesis.Presets.{local_patch, local_lem}
use paseo_node.Runtime.Genesis.Authors.{finder}
use paseo_node.Node.Inherents.{InherentTypes, import_inherents, author_inherents}
use paseo_node.Node.Inherents.Laws.{RunsThisRuntime, slots_agree, authored_by}
use paseo_node.Examples.Genesis.{toy, toy-IsKeyring}

abbrev double : Moment → Moment
double m = m * 2

abbrev chain : InherentTypes
chain = record {
  Error = Unit {0};
  slot_duration_at = λ block. ok (aura_config double).slot_duration;
  from_timestamp_and_slot_duration = λ now d. now / d;
}

ok_of_returns :
    (d after : ℕ)
    → call small slot_duration 4 ≡ returns (d, after)
    → chain.slot_duration_at [] ≡ ok d
unfolding call
ok_of_returns d after e = cc

chain_runs : RunsThisRuntime chain small (λ block. 4) double
chain_runs = record {
  slot_of = λ now d. refl;
  doubles = λ m. refl;
  configured = λ s. refl;
  answers = λ block d after e. ok_of_returns d after e;
}

third_slot : author_inherents chain [] 20_000 ≡ ok (3, 20_000)
unfolding author_inherents
third_slot = refl

slots_agree_example :
    (slot later : ℕ) × (author_inherents chain [] 20_000 ≡ ok (slot, 20_000))
    × (import_inherents chain (1 ∷ []) 25_000 ≡ ok (later, 25_000))
    × (slot ≤ later)
    × (later ≤ slot + 1)
slots_agree_example =
    slots_agree chain small (λ block. 4) double chain_runs [] (1 ∷ []) 20_000 25_000 (omega arith)
      (omega arith)

abbrev first_byte : Bytes → Option ℕ
first_byte [] = none
first_byte (b ∷ _) = some b

abbrev byte_account : ℕ → Bytes
byte_account id = id ∷ []

abbrev sealed : List (Bytes × Bytes)
sealed = (codes "FRNK", 9 ∷ []) ∷ (codes "aura", 3 ∷ []) ∷ []

-- Slot 3 is Bob's.
authored_by_example :
    find_author
      (finder toy toy-IsKeyring (codes "aura") first_byte byte_account)
      (local_patch toy toy-IsKeyring).aura_authorities
      sealed
    ≡ some (byte_account toy-IsKeyring.bob_aura)
authored_by_example =
    authored_by chain small (λ block. 4) double chain_runs toy toy-IsKeyring (codes "aura")
      first_byte byte_account (local_patch toy toy-IsKeyring) (local_lem toy toy-IsKeyring) []
      20_000 3 third_slot sealed (3 ∷ []) refl refl

seeded : IsSeeded toy toy-IsKeyring byte_account
seeded = record {
  alice_account = refl;
  bob_account = refl;
  bob_listed = Memᴰ.tail (Memᴰ.head refl);
  bob-ne-one = omega arith;
  bob-ne-two = omega arith;
}

-- The pallets at that block.
abbrev pallets : PnsPallets
pallets = record Adapters.toy { author = λ s. some (2 ∷ []) }

bob_found : ◌≡◌ {A = Option AccountId} (some (2 ∷ [])) (
    find_author
      (finder toy toy-IsKeyring (codes "aura") first_byte byte_account)
      (local_patch toy toy-IsKeyring).aura_authorities
      sealed)
unfolding find_author author_at testnet_genesis
bob_found = refl

block_author_endowed_example :
    (a : AccountId) × (block_author pallets [] ≡ some a)
    × Memᴰ a (accounts_of (local_patch toy toy-IsKeyring).balances)
block_author_endowed_example =
    block_author_endowed toy toy-IsKeyring (codes "aura") first_byte byte_account seeded
      (local_patch toy toy-IsKeyring) (inr (local_lem toy toy-IsKeyring)) pallets [] sealed (3 ∷ [])
      3 bob_found refl refl

abbrev taken : List ℕ → ℕ → Option ℕ
taken ids slot = get_elem? ids (slot % length ids)

two_answered : call small authorities 4 ≡ returns (1 ∷ 2 ∷ [], 4)
unfolding call
two_answered = refl

find_author-call_example :
    find_author (api_finder small (codes "aura") first_byte byte_account) (1 ∷ 2 ∷ []) sealed
    ≡ some (byte_account 2)
find_author-call_example =
    find_author-call small (codes "aura") first_byte byte_account taken (λ ids slot. refl) 4
      (1 ∷ 2 ∷ []) 4 two_answered (omega arith) sealed (3 ∷ []) 3 refl refl
