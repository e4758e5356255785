-- ===== src/Runtime/Pns.antt =====
-- `PnsStorageApi` of runtime/src/apis.rs: the queries on names, over a snapshot of the storage.
pub mod Laws
use paseo_node.Base.{
  ℕ, Bool, true, false, Option, none, some, List, Bytes, replicate, ltb, leb, saturating_add,
  if◌then◌else◌,
}
use paseo_node.Base.Try.{◌>>=◌}
use paseo_node.Runtime.Types.{AccountId, Balance, BlockNumber, DomainHash, Hash, Moment}
use paseo_node.Runtime.Constants.{offer_window}

-- Of each stored value, the fields that the runtime reads.
pub record Offer : Type 0 where
  pub offered_at : Moment

pub record RegistrarInfo : Type 0 where
  pub expire : Moment
  pub capacity : ℕ
  pub register_fee : Balance
  pub last_block : BlockNumber

pub record Token : Type 0 where
  pub owner : AccountId

pub record Listing : Type 0 where
  pub seller : AccountId
  pub price : Balance
  pub expires_at : Moment

-- The answers, `pns_types::NameRecord` and `pns_types::ListingInfo`.
pub record NameRecord : Type 0 where
  pub owner : AccountId
  pub expire : Moment
  pub capacity : ℕ
  pub register_fee : Balance
  pub for_sale : Bool
  pub last_block : BlockNumber
  pub read_block_number : BlockNumber
  pub read_block_hash : Hash

pub record ListingInfo : Type 0 where
  pub seller : AccountId
  pub price : Balance
  pub expires_at : Moment
  pub read_block_number : BlockNumber
  pub read_block_hash : Hash

-- What the queries use of `pns_types` and of `pns_registrar::traits::Label`.
pub record PnsTypes : Type 1 where
  pub Label : Type 0
  pub RecordType : Type 0
  pub new_with_len : Bytes → Option (Label × ℕ)
  pub encode_with_node : Label → DomainHash → DomainHash
  pub parse_name_to_node : Bytes → DomainHash → Option DomainHash
  pub native_basenode : DomainHash

abbrev pub default_hash : Hash
default_hash = replicate 32 0

abbrev pub contains_key {ℓ} : {A : Type ℓ} → Option A → Bool
contains_key none = false
contains_key (some _) = true

abbrev pub unwrap_or {ℓ} : {A : Type ℓ} → Option A → A → A
unwrap_or none a = a
unwrap_or (some b) a = b

module _ (T : PnsTypes) where
  open T use {RecordType, new_with_len, encode_with_node, parse_name_to_node, native_basenode}

  -- The storage at one block: the maps of the PNS pallets and the block's timestamp.
  pub record Storage : Type 0 where
    pub offered_names : DomainHash → Option Offer
    pub registrar_info : DomainHash → Option RegistrarInfo
    pub tokens : ℕ → DomainHash → Option Token
    pub listings : DomainHash → Option Listing
    pub records : DomainHash → List RecordType → List (RecordType × Bytes)
    pub now : Moment

  unfoldable pub get_info : Storage → DomainHash → Option NameRecord
  get_info s id =
      let rest = do
        info ← s.registrar_info id
        let live = do
          token ← s.tokens 0 id
          some (record {
            owner = token.owner;
            expire = info.expire;
            capacity = info.capacity;
            register_fee = info.register_fee;
            for_sale = contains_key (s.listings id);
            last_block = info.last_block;
            read_block_number = 0;
            read_block_hash = default_hash;
          })
        if leb info.expire s.now then none else live
      in elim (s.offered_names id) [
        | none ↦ rest
        | some offer ↦
            if ltb s.now (saturating_add offer.offered_at offer_window) then none else rest
      ]

  unfoldable pub resolve_name : Storage → Bytes → Option NameRecord
  resolve_name s name = do
    (label, _) ← new_with_len name
    let node = encode_with_node label native_basenode
    let rest = do
      info ← s.registrar_info node
      let live = do
        token ← s.tokens 0 node
        some (record {
          owner = token.owner;
          expire = info.expire;
          capacity = info.capacity;
          register_fee = info.register_fee;
          for_sale = contains_key (s.listings node);
          last_block = info.last_block;
          read_block_number = 0;
          read_block_hash = default_hash;
        })
      if leb info.expire s.now then none else live
    elim (s.offered_names node) [
      | none ↦ rest
      | some offer ↦ if ltb s.now (saturating_add offer.offered_at offer_window) then none else rest
    ]

  unfoldable pub get_listing : Storage → Bytes → Option ListingInfo
  get_listing s name = do
    (label, _) ← new_with_len name
    l ← s.listings (encode_with_node label native_basenode)
    some (record {
      seller = l.seller;
      price = l.price;
      expires_at = l.expires_at;
      read_block_number = 0;
      read_block_hash = default_hash;
    })

  unfoldable pub lookup : Storage → DomainHash → List RecordType → List (RecordType × Bytes)
  lookup s id record_types = s.records id record_types

  unfoldable pub lookup_by_name : Storage → Bytes → List RecordType → List (RecordType × Bytes)
  lookup_by_name s name record_types =
      let node = unwrap_or (parse_name_to_node name native_basenode) default_hash in
      s.records node record_types
