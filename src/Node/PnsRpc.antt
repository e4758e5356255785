-- ===== src/Node/PnsRpc.antt =====
-- The PNS methods of the JSON-RPC server, node/src/pns_rpc.rs.
-- A method runs over a world that counts the reads of `client.info()`, whose answer may change
-- from one read to the next, and logs the runtime calls.
pub mod Laws
pub mod Chain
pub mod Answers
pub mod Sessions
pub mod Threads
use Prim.Native.String.{String}
use paseo_node.Base.{
  ℕ, ◌+◌, Bool, true, false, Option, none, some, List, [], ◌∷◌, ◌++◌, map, Bytes, length, ltb,
  as_u16, as_u32, Result, ok, err, map_err,
}
use paseo_node.Runtime.Types.{BlockNumber, DomainHash, Hash}
use paseo_node.Runtime.Pns.{NameRecord, ListingInfo, PnsTypes}

-- `client.info()`, the fields that are read
pub record ChainInfo : Type 0 where
  pub best_hash : Hash
  pub best_number : BlockNumber

pub data ErrorCode : Type 0 where
  internal_error invalid_params : ErrorCode

-- `jsonrpsee::types::ErrorObject`
pub record ErrorObject : Type 0 where
  pub code : ErrorCode
  pub message : String
  pub details : Option String

pub data Call (RecordType : Type 0) : Type 0 where
  get_info_at : Hash → DomainHash → Call RecordType
  resolve_name_at : Hash → Bytes → Call RecordType
  lookup_at : Hash → DomainHash → List RecordType → Call RecordType
  get_listing_at : Hash → Bytes → Call RecordType
  lookup_by_name_at : Hash → Bytes → List RecordType → Call RecordType

-- The client and the record types of `hickory_proto`. `info n` is what read number `n` returns.
pub record Client (T : PnsTypes) : Type 1 where
  pub ApiError : Type 0
  pub debug : ApiError → String
  pub info : ℕ → ChainInfo
  pub api_get_info : Hash → DomainHash → Result (Option NameRecord) ApiError
  pub api_resolve_name : Hash → Bytes → Result (Option NameRecord) ApiError
  pub api_lookup :
      Hash → DomainHash → List T.RecordType → Result (List (T.RecordType × Bytes)) ApiError
  pub api_get_listing : Hash → Bytes → Result (Option ListingInfo) ApiError
  pub api_lookup_by_name :
      Hash → Bytes → List T.RecordType → Result (List (T.RecordType × Bytes)) ApiError
  pub HickoryType : Type 0
  pub from_u16 : ℕ → HickoryType
  pub to_u16 : HickoryType → ℕ
  pub to_pns : HickoryType → T.RecordType
  pub from_pns : T.RecordType → HickoryType

module _ {T : PnsTypes} (C : Client T) where
  open C use {ApiError, debug, HickoryType, from_u16, to_u16, to_pns, from_pns}

  pub record World : Type 0 where
    pub reads : ℕ
    pub calls : List (Call T.RecordType)

  abbrev pub M : Type 0 → Type 0
  M A = World → Result A ErrorObject × World

  abbrev pub next :
      {A B : Type 0} → Result A ErrorObject × World → (A → M B) → Result B ErrorObject × World
  next (ok a, w) f = f a w
  next (err e, w) f = (err e, w)

  infixl 5 ◌>>=◌ ◌>>◌
  abbrev pub ◌>>=◌ : {A B : Type 0} → M A → (A → M B) → M B
  ◌>>=◌ m f w = next (m w) f

  abbrev pub ◌>>◌ : {B : Type 0} → M (Unit {0}) → M B → M B
  m >> k = m >>= λ _. k

  abbrev pub return : {A : Type 0} → A → M A
  return a w = (ok a, w)

  abbrev pub client_info : M ChainInfo
  client_info w = (ok (C.info w.reads), record w { reads = w.reads + 1 })

  abbrev pub runtime_error : ApiError → ErrorObject
  runtime_error e = record {
    code = internal_error;
    message = "Runtime error";
    details = some (debug e);
  }

  -- A call of the runtime API with the `map_err` that follows it.
  abbrev pub runtime_call : {A : Type 0} → Call T.RecordType → Result A ApiError → M A
  runtime_call c result w = (map_err runtime_error result, record w { calls = w.calls ++ (c ∷ []) })

  -- `if test { return Err(…) }`
  abbrev pub reject_if : Bool → String → M (Unit {0})
  reject_if true message w =
      (err (record { code = invalid_params; message = message; details = none }), w)
  reject_if false message w = (ok tt, w)

  abbrev pub stamp_name : ChainInfo → NameRecord → NameRecord
  stamp_name chain r = record r {
    read_block_hash = chain.best_hash;
    read_block_number = chain.best_number;
  }

  abbrev pub stamp_listing : ChainInfo → ListingInfo → ListingInfo
  stamp_listing chain r = record r {
    read_block_hash = chain.best_hash;
    read_block_number = chain.best_number;
  }

  -- `map` on an option
  abbrev pub over {ℓ} : {A : Type ℓ} → (A → A) → Option A → Option A
  over f none = none
  over f (some a) = some (f a)

  unfoldable pub get_info : DomainHash → M (Option NameRecord)
  get_info node = do
    chain ← client_info
    r ← runtime_call (get_info_at chain.best_hash node) (C.api_get_info chain.best_hash node)
    return (over (stamp_name chain) r)

  unfoldable pub resolve_name : Bytes → M (Option NameRecord)
  resolve_name name = do
    reject_if (ltb 128 (length name)) "name too long"
    chain ← client_info
    r ←
        runtime_call (resolve_name_at chain.best_hash name)
          (C.api_resolve_name chain.best_hash name)
    return (over (stamp_name chain) r)

  -- The codes are `u32` in the request and in the answer, and `u16` in between.
  unfoldable pub to_record_type : ℕ → T.RecordType
  to_record_type code = to_pns (from_u16 (as_u16 code))

  unfoldable pub from_record : T.RecordType × Bytes → ℕ × Bytes
  from_record (rt, payload) = (as_u32 (to_u16 (from_pns rt)), payload)

  unfoldable pub lookup : DomainHash → List ℕ → M (List (ℕ × Bytes))
  lookup node record_types = do
    reject_if (ltb 50 (length record_types)) "too many record types (max 50)"
    best ← client_info
    let pns_types = map to_record_type record_types
    records ←
        runtime_call (lookup_at best.best_hash node pns_types)
          (C.api_lookup best.best_hash node pns_types)
    return (map from_record records)

  unfoldable pub get_listing : Bytes → M (Option ListingInfo)
  get_listing name = do
    reject_if (ltb 128 (length name)) "name too long"
    chain ← client_info
    r ← runtime_call (get_listing_at chain.best_hash name) (C.api_get_listing chain.best_hash name)
    return (over (stamp_listing chain) r)

  unfoldable pub lookup_by_name : Bytes → List ℕ → M (List (ℕ × Bytes))
  lookup_by_name name record_types = do
    reject_if (ltb 128 (length name)) "name too long"
    reject_if (ltb 50 (length record_types)) "too many record types (max 50)"
    best ← client_info
    let pns_types = map to_record_type record_types
    records ←
        runtime_call (lookup_by_name_at best.best_hash name pns_types)
          (C.api_lookup_by_name best.best_hash name pns_types)
    return (map from_record records)

-- The methods of the trait, by their JSON-RPC names.
pub data Request : Type 0 where
  pns_get_info : DomainHash → Request
  pns_resolve_name : Bytes → Request
  pns_lookup : DomainHash → List ℕ → Request
  pns_get_listing : Bytes → Request
  pns_lookup_by_name : Bytes → List ℕ → Request

pub data Response : Type 0 where
  name_record : Option NameRecord → Response
  records : List (ℕ × Bytes) → Response
  listing : Option ListingInfo → Response

module _ {T : PnsTypes} (C : Client T) where
  abbrev answer : {A : Type 0} → (A → Response) → M C A → M C Response
  answer f m w = next C (m w) (λ a. return C (f a))

  unfoldable pub serve : Request → M C Response
  serve (pns_get_info node) = answer name_record (get_info C node)
  serve (pns_resolve_name name) = answer name_record (resolve_name C name)
  serve (pns_lookup node codes) = answer records (lookup C node codes)
  serve (pns_get_listing name) = answer listing (get_listing C name)
  serve (pns_lookup_by_name name codes) = answer records (lookup_by_name C name codes)
