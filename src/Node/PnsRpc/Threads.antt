-- ===== src/Node/PnsRpc/Threads.antt =====
-- The methods of node/src/pns_rpc.rs as the server's worker threads run them, which is several at
-- a time: each is a program that reads `client.info()` and calls the runtime at moments of its
-- own, while blocks are imported and other requests are handled in between.
pub mod System
mod Runs
mod Within
mod Keeps
pub mod Linear
pub mod Names
pub mod RealTime
pub mod Progress
use Prim.Native.String.{String}
use paseo_node.Base.{
  Bool, true, false, Option, none, some, List, map, Bytes, ℕ, length, ltb, Result, ok, err, map_err,
}
use paseo_node.Runtime.Types.{DomainHash}
use paseo_node.Runtime.Pns.{NameRecord, ListingInfo, PnsTypes}
use paseo_node.Node.PnsRpc.{
  ChainInfo, ErrorObject, invalid_params, Call, get_info_at, resolve_name_at, lookup_at,
  get_listing_at, lookup_by_name_at, Client, runtime_error, stamp_name, stamp_listing, over,
  to_record_type, from_record, Request, pns_get_info, pns_resolve_name, pns_lookup, pns_get_listing,
  pns_lookup_by_name, Response, name_record, records, listing,
}

-- What is left to do of a request: the answer is there, or the next access to the client is a read
-- of the best block, or a call of the runtime, which depends on the block alone.
pub data Program (RecordType R : Type 0) : Type 0 where
  finished : Result R ErrorObject → Program RecordType R
  reads_info : (ChainInfo → Program RecordType R) → Program RecordType R
  calls_api : Call RecordType → Program RecordType R → Program RecordType R

unfoldable pub bind :
    {RecordType A B : Type 0}
    → Program RecordType A
    → (A → Program RecordType B)
    → Program RecordType B
bind (finished (ok a)) f = f a
bind (finished (err e)) f = finished (err e)
bind (reads_info k) f = reads_info (λ chain. bind (k chain) f)
bind (calls_api c p) f = calls_api c (bind p f)

module _ {T : PnsTypes} (C : Client T) where
  open C use {ApiError}

  abbrev pub P : Type 0 → Type 0
  P = Program T.RecordType

  infixl 5 ◌>>=◌ ◌>>◌
  abbrev ◌>>=◌ : {A B : Type 0} → P A → (A → P B) → P B
  p >>= f = bind p f

  abbrev ◌>>◌ : {B : Type 0} → P (Unit {0}) → P B → P B
  p >> q = p >>= λ _. q

  abbrev pub return : {A : Type 0} → A → P A
  return a = finished (ok a)

  abbrev pub client_info : P ChainInfo
  client_info = reads_info return

  abbrev pub runtime_call : {A : Type 0} → Call T.RecordType → Result A ApiError → P A
  runtime_call c result = calls_api c (finished (map_err (runtime_error C) result))

  abbrev pub reject_if : Bool → String → P (Unit {0})
  reject_if true message =
      finished (err (record { code = invalid_params; message = message; details = none }))
  reject_if false message = return tt

  unfoldable pub get_info : DomainHash → Program T.RecordType (Option NameRecord)
  unfolding bind
  get_info node = do
    chain ← client_info
    r ← runtime_call (get_info_at chain.best_hash node) (C.api_get_info chain.best_hash node)
    return (over C (stamp_name C chain) r)

  unfoldable pub resolve_name : Bytes → Program T.RecordType (Option NameRecord)
  resolve_name name = do
    reject_if (ltb 128 (length name)) "name too long"
    chain ← client_info
    r ←
        runtime_call (resolve_name_at chain.best_hash name)
          (C.api_resolve_name chain.best_hash name)
    return (over C (stamp_name C chain) r)

  unfoldable pub lookup : DomainHash → List ℕ → Program T.RecordType (List (ℕ × Bytes))
  lookup node record_types = do
    reject_if (ltb 50 (length record_types)) "too many record types (max 50)"
    best ← client_info
    let pns_types = map (to_record_type C) record_types
    found ←
        runtime_call (lookup_at best.best_hash node pns_types)
          (C.api_lookup best.best_hash node pns_types)
    return (map (from_record C) found)

  unfoldable pub get_listing : Bytes → Program T.RecordType (Option ListingInfo)
  get_listing name = do
    reject_if (ltb 128 (length name)) "name too long"
    chain ← client_info
    r ← runtime_call (get_listing_at chain.best_hash name) (C.api_get_listing chain.best_hash name)
    return (over C (stamp_listing C chain) r)

  unfoldable pub lookup_by_name : Bytes → List ℕ → Program T.RecordType (List (ℕ × Bytes))
  lookup_by_name name record_types = do
    reject_if (ltb 128 (length name)) "name too long"
    reject_if (ltb 50 (length record_types)) "too many record types (max 50)"
    best ← client_info
    let pns_types = map (to_record_type C) record_types
    found ←
        runtime_call (lookup_by_name_at best.best_hash name pns_types)
          (C.api_lookup_by_name best.best_hash name pns_types)
    return (map (from_record C) found)

  abbrev answer : {A : Type 0} → (A → Response) → P A → P Response
  answer f p = p >>= λ a. return (f a)

  unfoldable pub program : Request → Program T.RecordType Response
  program (pns_get_info node) = answer name_record (get_info node)
  program (pns_resolve_name name) = answer name_record (resolve_name name)
  program (pns_lookup node codes) = answer records (lookup node codes)
  program (pns_get_listing name) = answer listing (get_listing name)
  program (pns_lookup_by_name name codes) = answer records (lookup_by_name name codes)
