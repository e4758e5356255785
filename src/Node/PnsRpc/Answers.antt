-- ===== src/Node/PnsRpc/Answers.antt =====
-- The methods of node/src/pns_rpc.rs over a client whose runtime is that of runtime/src/apis.rs:
-- each method asks one call of the runtime APIs, on the state of the best block.
use paseo_node.Base.{
  ◌≡◌, refl, ap, ◌∙◌, inl, inr, ◌⊎◌, false, map, arith, length, ltb, Result, ok, err, Bool-cases, ℕ,
  ◌%◌, ◌^◌, List, Bytes, Option, none, some, nat_eq,
}
use paseo_node.Base.Outcome.{returns}
use paseo_node.Runtime.Types.{Hash}
use paseo_node.Runtime.Pns.{PnsTypes, NameRecord, ListingInfo}
use paseo_node.Runtime.Apis.Types.{ApiTypes}
use paseo_node.Runtime.Apis.Calls.{ApiCall, Answer}
use paseo_node.Runtime.Apis.Calls
use paseo_node.Runtime.Apis.Dispatch.{Runtime, call}
use paseo_node.Node.PnsRpc.{
  ChainInfo, ErrorObject, internal_error, Client, World, runtime_error, get_info, resolve_name,
  to_record_type, from_record, lookup, get_listing, lookup_by_name, Request, pns_get_info,
  pns_resolve_name, pns_lookup, pns_get_listing, pns_lookup_by_name, Response, name_record, records,
  listing, serve,
}
use paseo_node.Node.PnsRpc.Laws.{is_oversized}

module _ (A : ApiTypes) {T : PnsTypes} (C : Client T) where
  -- The record types of codes, each by its 16 low bits.
  abbrev pub types_of : List ℕ → List T.RecordType
  types_of codes = map (λ code. C.to_pns (C.from_u16 (code % 2 ^ 16))) codes

  -- The records, with the codes of their types.
  abbrev pub coded : List (T.RecordType × Bytes) → List (ℕ × Bytes)
  coded found = map (λ r. (C.to_u16 (C.from_pns r.0) % 2 ^ 32, r.1)) found

  -- The number and the hash of the block at which an answer was read, in place of those that the
  -- runtime gave.
  abbrev pub read_at : ChainInfo → Option NameRecord → Option NameRecord
  read_at chain none = none
  read_at chain (some r) =
      some (record r { read_block_hash = chain.best_hash; read_block_number = chain.best_number })

  abbrev pub listed_at : ChainInfo → Option ListingInfo → Option ListingInfo
  listed_at chain none = none
  listed_at chain (some l) =
      some (record l { read_block_hash = chain.best_hash; read_block_number = chain.best_number })

  -- The call of the runtime APIs that a request makes.
  abbrev pub asked : Request → ApiCall A T
  asked (pns_get_info node) = Calls.get_info node
  asked (pns_resolve_name name) = Calls.resolve_name name
  asked (pns_lookup node codes) = Calls.lookup node (types_of codes)
  asked (pns_get_listing name) = Calls.get_listing name
  asked (pns_lookup_by_name name codes) = Calls.lookup_by_name name (types_of codes)

  -- What the client answers to that call.
  abbrev pub api : (req : Request) → Hash → Result (Answer A T (asked req)) C.ApiError
  api (pns_get_info node) h = C.api_get_info h node
  api (pns_resolve_name name) h = C.api_resolve_name h name
  api (pns_lookup node codes) h = C.api_lookup h node (types_of codes)
  api (pns_get_listing name) h = C.api_get_listing h name
  api (pns_lookup_by_name name codes) h = C.api_lookup_by_name h name (types_of codes)

  -- The response that carries an answer read at a block.
  abbrev pub rendered : (req : Request) → ChainInfo → Answer A T (asked req) → Response
  rendered (pns_get_info node) chain a = name_record (read_at chain a)
  rendered (pns_resolve_name name) chain a = name_record (read_at chain a)
  rendered (pns_lookup node codes) chain a = records (coded a)
  rendered (pns_get_listing name) chain a = listing (listed_at chain a)
  rendered (pns_lookup_by_name name codes) chain a = records (coded a)

  abbrev responds :
      (req : Request)
      → ChainInfo
      → Result (Answer A T (asked req)) C.ApiError
      → Result Response ErrorObject
  responds req chain (ok a) = ok (rendered req chain a)
  responds req chain (err e) = err (runtime_error C e)

  serve-responds :
      (req : Request) (w : World C)
      → is_oversized req ≡ false
      → let chain = C.info w.reads in
        (serve C req w).0 ≡ responds req chain (api req chain.best_hash)
  unfolding serve get_info resolve_name lookup get_listing lookup_by_name to_record_type from_record
  serve-responds (pns_get_info node) w h = ground arith
  serve-responds (pns_resolve_name name) w h = rw h (ground arith)
  serve-responds (pns_lookup node codes) w h = rw h (ground arith)
  serve-responds (pns_get_listing name) w h = rw h (ground arith)
  serve-responds (pns_lookup_by_name name codes) w h = elim (Bool-cases (ltb 128 (length name))) [
    | inl long ↦ absurd (ground arith)
    | inr short ↦ rw (short, rw short at h) (ground arith)
  ]

module _ {A : ApiTypes} {T : PnsTypes} (R : Runtime A T) (C : Client T)
    (state_at : Hash → A.State) where
  -- The client runs a call at a block on a copy of the block's state, which is dropped, or fails.
  abbrev pub RunsCalls : Type 0
  RunsCalls =
      (req : Request) (h : Hash)
      → ((a : Answer A T (asked A C req)) × (after : A.State) × (call R (asked A C req) (state_at h)
            ≡ returns (a, after))
          × (api A C req h ≡ ok a))
        ⊎ ((e : C.ApiError) × (api A C req h ≡ err e))

  same_answer :
      (req : Request) (s after : A.State) (a : Answer A T (asked A C req))
      → call R (asked A C req) s ≡ returns (a, after)
      → call R (asked A C req) s ≡ returns (a, s)
  unfolding call
  same_answer (pns_get_info node) s after a made = cc
  same_answer (pns_resolve_name name) s after a made = cc
  same_answer (pns_lookup node codes) s after a made = cc
  same_answer (pns_get_listing name) s after a made = cc
  same_answer (pns_lookup_by_name name codes) s after a made = cc

  -- Where the client runs a call at a block on that block's state or fails, a request within the
  -- limits is answered with what its call of the runtime APIs returns on the state of the best
  -- block that the request read, and that call changes nothing: a record or a listing has the number
  -- and the hash of that block, and record types are asked for by the low 16 bits of their codes and
  -- answered by their codes. Or it is answered with an internal error.
  pub serve-call :
      RunsCalls
      → (req : Request) (w : World C) → is_oversized req ≡ false
      → let chain = C.info w.reads in
        let s = state_at chain.best_hash in
        ((a : Answer A T (asked A C req)) × (call R (asked A C req) s ≡ returns (a, s))
          × ((serve C req w).0 ≡ ok (rendered A C req chain a)))
        ⊎ ((e : ErrorObject) × ((serve C req w).0 ≡ err e) × (e.code ≡ internal_error))
  serve-call runs req w h =
      let chain = C.info w.reads in
      elim (runs req chain.best_hash) [
        | inl (a, after, made, ran) ↦ inl (
          a,
          same_answer req _ after a made,
          serve-responds A C req w h ∙ ap (responds A C req chain) ran,
        )
        | inr (e, failed) ↦ inr (
          runtime_error C e,
          serve-responds A C req w h ∙ ap (responds A C req chain) failed,
          refl,
        )
      ]
