-- ===== src/Node/PnsRpc/Threads/Within.antt =====
-- How often the programs of the methods of node/src/pns_rpc.rs access the client.
use Prim.Native.String.{String}
use paseo_node.Base.{
  ℕ, zero, suc, Bool, true, false, ok, err, map_err, Result, List, length, ltb, map,
}
use paseo_node.Runtime.Pns.{PnsTypes}
use paseo_node.Node.PnsRpc.{
  ChainInfo, ErrorObject, Client, Request, pns_get_info, pns_resolve_name, pns_lookup,
  pns_get_listing, pns_lookup_by_name, to_record_type, runtime_error,
}
use paseo_node.Node.PnsRpc.Threads.{
  Program, finished, reads_info, calls_api, bind, return, reject_if, get_info, resolve_name, lookup,
  get_listing, lookup_by_name, program,
}

-- At most so many reads of the best block are left, and at most so many runtime calls.
abbrev pub Within : {RecordType R : Type 0} → (reads calls : ℕ) → Program RecordType R → Type 0
Within reads calls (finished r) = Unit
Within zero calls (reads_info k) = ⊥
Within (suc reads) calls (reads_info k) = (chain : ChainInfo) → Within reads calls (k chain)
Within reads zero (calls_api c p) = ⊥
Within reads (suc calls) (calls_api c p) = Within reads calls p

module _ {RecordType : Type 0} where
  pub Within-suc :
      {R : Type 0} (reads calls : ℕ) (p : Program RecordType R)
      → Within reads calls p
      → Within reads (suc calls) p
  Within-suc reads calls (finished r) h = tt
  Within-suc zero calls (reads_info k) h = absurd h
  Within-suc (suc reads) calls (reads_info k) h =
      λ chain. Within-suc reads calls (k chain) (h chain)
  Within-suc reads zero (calls_api c p) h = absurd h
  Within-suc reads (suc calls) (calls_api c p) h = Within-suc reads calls p h

  pub Within-reads :
      {R : Type 0} (reads calls : ℕ) (p : Program RecordType R)
      → Within reads calls p
      → Within (suc reads) calls p
  Within-reads reads calls (finished r) h = tt
  Within-reads zero calls (reads_info k) h = absurd h
  Within-reads (suc reads) calls (reads_info k) h =
      λ chain. Within-reads reads calls (k chain) (h chain)
  Within-reads reads zero (calls_api c p) h = absurd h
  Within-reads reads (suc calls) (calls_api c p) h = Within-reads reads calls p h

  Within-bind :
      {A B : Type 0} (reads calls : ℕ) (p : Program RecordType A) (f : A → Result B ErrorObject)
      → Within reads calls p
      → Within reads calls (bind p (λ a. finished (f a)))
  unfolding bind
  Within-bind reads calls (finished (ok a)) f h = tt
  Within-bind reads calls (finished (err e)) f h = tt
  Within-bind zero calls (reads_info k) f h = absurd h
  Within-bind (suc reads) calls (reads_info k) f h =
      λ chain. Within-bind reads calls (k chain) f (h chain)
  Within-bind reads zero (calls_api c p) f h = absurd h
  Within-bind reads (suc calls) (calls_api c p) f h = Within-bind reads calls p f h

module _ {T : PnsTypes} (C : Client T) where
  abbrev types : List ℕ → List T.RecordType
  types codes = map (to_record_type C) codes

  Within-reject_if :
      {A : Type 0} (reads calls : ℕ) (b : Bool) (message : String) (p : Program T.RecordType A)
      → Within reads calls p
      → Within reads calls (bind (reject_if C b message) (λ u. p))
  unfolding bind
  Within-reject_if reads calls true message p h = tt
  Within-reject_if reads calls false message p h = h

  -- A runtime call's result accesses nothing more.
  Within-map_err :
      {A B : Type 0} (r : Result A C.ApiError) (f : A → B)
      → Within {RecordType = T.RecordType} 0 0
          (bind (finished (map_err (runtime_error C) r)) (λ a. return C (f a)))
  Within-map_err r f = Within-bind 0 0 (finished (map_err (runtime_error C) r)) (λ a. ok (f a)) tt

  -- A program reads the best block once at most, and makes at most one runtime call.
  pub program-Within : (req : Request) → Within 1 1 (program C req)
  unfolding program bind get_info resolve_name lookup get_listing lookup_by_name
  program-Within (pns_get_info node) =
      Within-bind 1 1 (get_info C node) _
        (λ chain. Within-map_err (C.api_get_info chain.best_hash node) _)
  program-Within (pns_resolve_name name) = Within-bind 1 1 (resolve_name C name) _ (
      Within-reject_if 1 1 (ltb 128 (length name)) _ _
        (λ chain. Within-map_err (C.api_resolve_name chain.best_hash name) _))
  program-Within (pns_lookup node codes) = Within-bind 1 1 (lookup C node codes) _ (
      Within-reject_if 1 1 (ltb 50 (length codes)) _ _
        (λ chain. Within-map_err (C.api_lookup chain.best_hash node (types codes)) _))
  program-Within (pns_get_listing name) = Within-bind 1 1 (get_listing C name) _ (
      Within-reject_if 1 1 (ltb 128 (length name)) _ _
        (λ chain. Within-map_err (C.api_get_listing chain.best_hash name) _))
  program-Within (pns_lookup_by_name name codes) = Within-bind 1 1 (lookup_by_name C name codes) _ (
      Within-reject_if 1 1 (ltb 128 (length name)) _ _ (
        Within-reject_if 1 1 (ltb 50 (length codes)) _ _
          (λ chain. Within-map_err (C.api_lookup_by_name chain.best_hash name (types codes)) _)))
