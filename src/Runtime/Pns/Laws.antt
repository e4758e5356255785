-- ===== src/Runtime/Pns/Laws.antt =====
-- When a name resolves: `PnsStorageApi` of runtime/src/apis.rs against the stored maps.
use paseo_node.Base.{
  ◌+◌, ◌≤◌, ◌<◌, ◌≡◌, ◌≢◌, ◌↔◌, inl, inr, true, none, some, Bytes, arith, saturating_add, u64_max,
  Option-cases,
}
use paseo_node.Base.Try.{◌>>=◌}
use paseo_node.Runtime.Types.{DomainHash, Moment}
use paseo_node.Runtime.Constants.{offer_window}
use paseo_node.Runtime.Pns.{
  Offer, RegistrarInfo, Token, NameRecord, PnsTypes, Storage, default_hash, contains_key, get_info,
  resolve_name, get_listing,
}

module _ (T : PnsTypes) where
  -- A node with an answer: its offer, if it has one, is over; it is registered and has not
  -- expired; its token of class 0 is minted. The answer has the stored values.
  pub record IsResolved (s : Storage T) (id : DomainHash) (r : NameRecord) : Type 0 where
    pub released :
        (offer : Offer)
        → s.offered_names id ≡ some offer
        → saturating_add offer.offered_at offer_window ≤ s.now
    pub info : RegistrarInfo
    pub registered : s.registrar_info id ≡ some info
    pub live : s.now < info.expire
    pub token : Token
    pub minted : s.tokens 0 id ≡ some token
    pub answer : r ≡ record {
      owner = token.owner;
      expire = info.expire;
      capacity = info.capacity;
      register_fee = info.register_fee;
      for_sale = contains_key (s.listings id);
      last_block = info.last_block;
      read_block_number = 0;
      read_block_hash = default_hash;
    }

  get_info-IsResolved :
      (s : Storage T) (id : DomainHash) (r : NameRecord)
      → get_info T s id ≡ some r
      → IsResolved s id r
  unfolding get_info
  get_info-IsResolved s id r h = elim (Option-cases (s.registrar_info id)) [
    | inl missing ↦ absurd (ground arith)
    | inr (info, registered) ↦ elim (Option-cases (s.tokens 0 id)) [
      | inl missing ↦ absurd (ground arith)
      | inr (token, minted) ↦ record {
        released = λ offer offered. ground arith;
        info = info;
        registered = registered;
        live = ground arith;
        token = token;
        minted = minted;
        answer = ground arith;
      }
    ]
  ]

  get_info_of_IsResolved :
      (s : Storage T) (id : DomainHash) (r : NameRecord)
      → IsResolved s id r
      → get_info T s id ≡ some r
  unfolding get_info
  get_info_of_IsResolved s id r c = elim (Option-cases (s.offered_names id)) [
    | inl missing ↦ ground arith
    | inr (offer, offered) ↦ ground (arith, c.released offer offered)
  ]

  -- A query for a node gives a record exactly if the node's offer, if it has one, is over, the
  -- node is registered and not expired and its token is minted, and the record is the stored one.
  pub get_info_iff :
      (s : Storage T) (id : DomainHash) (r : NameRecord)
      → (get_info T s id ≡ some r) ↔ IsResolved s id r
  get_info_iff s id r = (get_info-IsResolved s id r, get_info_of_IsResolved s id r)

  -- Resolving a name is the query for the node of its label under the native base node, and a
  -- name that is no label has no answer: the two copies of the checks agree.
  pub resolve_name-eq-get_info :
      (s : Storage T) (name : Bytes)
      → resolve_name T s name
        ≡ (T.new_with_len name >>= λ l. get_info T s (T.encode_with_node l.0 T.native_basenode))
  unfolding resolve_name get_info
  resolve_name-eq-get_info s name = ground arith

  -- While an offer of a node is open the node does not resolve: a sum that passes the range of
  -- `u64` keeps it closed for as long as the clock is below the largest value.
  get_info_of_open_offer :
      (s : Storage T) (id : DomainHash) (offer : Offer)
      → s.offered_names id ≡ some offer
      → s.now < offer.offered_at + offer_window
      → s.now < u64_max
      → get_info T s id ≡ none
  unfolding get_info
  get_info_of_open_offer s id offer offered early in_range = ground arith

  -- The same storage with the clock at another time.
  abbrev pub at : Storage T → Moment → Storage T
  at s t = record s { now = t }

  -- A name that resolves is marked for sale exactly if a query for its listing has an answer.
  pub for_sale_iff :
      (s : Storage T) (name : Bytes) (r : NameRecord)
      → resolve_name T s name ≡ some r
      → (r.for_sale ≡ true) ↔ (get_listing T s name ≢ none)
  unfolding resolve_name get_listing
  for_sale_iff s name r h = ground arith
