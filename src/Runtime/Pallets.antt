-- ===== src/Runtime/Pallets.antt =====
-- The pallets of `construct_runtime` in runtime/src/lib.rs, with their indices.
use paseo_node.Base.{ℕ, List, [], ◌∷◌, nat_eq}

pub data Pallet : Type 0 where
  system timestamp aura grandpa balances transaction_payment sudo proxy : Pallet
  pns_nft pns_price_oracle pns_registry pns_registrar pns_resolvers pns_marketplace : Pallet
  scheduler authorship insecure_randomness : Pallet
  zk_pki : Pallet
  secret_squirrel : Pallet

-- `#[runtime::pallet_index(n)]`, the first byte of an encoded call, event or error
unfoldable pub pallet_index : Pallet → ℕ
pallet_index system = 0
pallet_index timestamp = 1
pallet_index aura = 2
pallet_index grandpa = 3
pallet_index balances = 4
pallet_index transaction_payment = 5
pallet_index sudo = 6
pallet_index proxy = 7
pallet_index pns_nft = 8
pallet_index pns_price_oracle = 9
pallet_index pns_registry = 10
pallet_index pns_registrar = 11
pallet_index pns_resolvers = 12
pallet_index pns_marketplace = 13
pallet_index scheduler = 20
pallet_index authorship = 21
pallet_index insecure_randomness = 22
pallet_index zk_pki = 30
pallet_index secret_squirrel = 40

-- `AllPalletsWithSystem`: the pallets in the order of their declaration
unfoldable pub all_pallets : List Pallet
all_pallets =
    system ∷ timestamp ∷ aura ∷ grandpa ∷ balances ∷ transaction_payment ∷ sudo ∷ proxy ∷ pns_nft
    ∷ pns_price_oracle ∷ pns_registry ∷ pns_registrar ∷ pns_resolvers ∷ pns_marketplace ∷ scheduler
    ∷ authorship ∷ insecure_randomness ∷ zk_pki ∷ secret_squirrel ∷ []
