-- ===== src/Node/PnsRpc/Chain.antt =====
-- The methods of node/src/pns_rpc.rs over a client that runs the queries of runtime/src/apis.rs
-- on the storage of the block that it is asked about.
use mathlib.Core.Path.{subst}
use paseo_node.Base.{
  ℕ, ◌≡◌, refl, sym, ap, ◌∙◌, ◌≢◌, ◌↔◌, ◌⊎◌, true, Option, none, some, Bytes, arith, ok, err,
}
use paseo_node.Runtime.Types.{DomainHash, Hash}
use paseo_node.Runtime.Pns
use paseo_node.Runtime.Pns.{NameRecord, ListingInfo, PnsTypes, Storage}
use paseo_node.Runtime.Pns.Laws.{IsResolved, get_info_iff, resolve_name-eq-get_info, for_sale_iff}
use paseo_node.Base.Try.{>>=-eq-some}
use paseo_node.Node.PnsRpc.{
  Client, World, over, stamp_name, stamp_listing, get_info, resolve_name, get_listing, pns_get_info,
  pns_resolve_name, pns_get_listing, name_record, listing, serve,
}

-- A runtime call at a block fails, or evaluates the query on the block's storage.
pub record RunsRuntime {T : PnsTypes} (C : Client T) (storage_at : Hash → Storage T) : Type 0 where
  pub runs_get_info :
      (h : Hash) (node : DomainHash)
      → (C.api_get_info h node ≡ ok (Pns.get_info T (storage_at h) node))
        ⊎ ((e : C.ApiError) × (C.api_get_info h node ≡ err e))
  pub runs_resolve_name :
      (h : Hash) (name : Bytes)
      → (C.api_resolve_name h name ≡ ok (Pns.resolve_name T (storage_at h) name))
        ⊎ ((e : C.ApiError) × (C.api_resolve_name h name ≡ err e))
  pub runs_get_listing :
      (h : Hash) (name : Bytes)
      → (C.api_get_listing h name ≡ ok (Pns.get_listing T (storage_at h) name))
        ⊎ ((e : C.ApiError) × (C.api_get_listing h name ≡ err e))

module _ {T : PnsTypes} (C : Client T) (storage_at : Hash → Storage T)
    (runs : RunsRuntime C storage_at) where
  -- An answer about a node is what the runtime finds in the storage of the best block that the
  -- request read, stamped with that block.
  pub serve-get_info :
      (node : DomainHash) (w : World C) (o : Option NameRecord)
      → (serve C (pns_get_info node) w).0 ≡ ok (name_record o)
      → let chain = C.info w.reads in
        o ≡ over C (stamp_name C chain) (Pns.get_info T (storage_at chain.best_hash) node)
  unfolding serve get_info
  serve-get_info node w o h = ground (arith, runs.runs_get_info (C.info w.reads).best_hash node)

  pub serve-resolve_name :
      (name : Bytes) (w : World C) (o : Option NameRecord)
      → (serve C (pns_resolve_name name) w).0 ≡ ok (name_record o)
      → let chain = C.info w.reads in
        o ≡ over C (stamp_name C chain) (Pns.resolve_name T (storage_at chain.best_hash) name)
  unfolding serve resolve_name
  serve-resolve_name name w o h =
      ground (arith, runs.runs_resolve_name (C.info w.reads).best_hash name)

  pub serve-get_listing :
      (name : Bytes) (w : World C) (o : Option ListingInfo)
      → (serve C (pns_get_listing name) w).0 ≡ ok (listing o)
      → let chain = C.info w.reads in
        o ≡ over C (stamp_listing C chain) (Pns.get_listing T (storage_at chain.best_hash) name)
  unfolding serve get_listing
  serve-get_listing name w o h =
      ground (arith, runs.runs_get_listing (C.info w.reads).best_hash name)

  over-eq-some :
      {A : Type 0} (f : A → A) (o : Option A) (b : A)
      → some b ≡ over C f o
      → (a : A) × (o ≡ some a) × (b ≡ f a)
  over-eq-some f none b h = cc
  over-eq-some f (some a) b h = (a, refl, cc)

  over-eq-none_iff : {A : Type 0} (f : A → A) (o : Option A) → (over C f o ≢ none) ↔ (o ≢ none)
  over-eq-none_iff f none = ground arith
  over-eq-none_iff f (some a) = ground arith

  -- A record that `pns_resolveName` returns is, but for the stamp, that of a name whose label's
  -- node resolves in the storage of the block in the stamp.
  pub serve-IsResolved :
      (name : Bytes) (w : World C) (r : NameRecord)
      → (serve C (pns_resolve_name name) w).0 ≡ ok (name_record (some r))
      → (l : T.Label × ℕ) × (r0 : NameRecord) × (T.new_with_len name ≡ some l)
        × IsResolved T (storage_at r.read_block_hash) (T.encode_with_node l.0 T.native_basenode) r0
        × (r ≡ stamp_name C (C.info w.reads) r0)
  serve-IsResolved name w r h =
      let chain = C.info w.reads in
      let (r0, resolved, stamped) =
        over-eq-some (stamp_name C chain) _ r (serve-resolve_name name w (some r) h) in
      let (l, named, answered) = label_of (storage_at chain.best_hash) r0 resolved in
      (
        l,
        r0,
        named,
        subst (λ h. IsResolved T (storage_at h) (T.encode_with_node l.0 T.native_basenode) r0)
            (sym (ap (λ (x : NameRecord). x.read_block_hash) stamped))
            ((get_info_iff T (storage_at chain.best_hash) _ r0).0 answered),
        stamped,
      )
    where
      label_of :
          (s : Storage T) (r0 : NameRecord)
          → Pns.resolve_name T s name ≡ some r0
          → (l : T.Label × ℕ) × (T.new_with_len name ≡ some l)
            × (Pns.get_info T s (T.encode_with_node l.0 T.native_basenode) ≡ some r0)
      label_of s r0 e =
          >>=-eq-some (T.new_with_len name) _ (sym (resolve_name-eq-get_info T s name) ∙ e)

  agree :
      (name : Bytes) (h h' : Hash) (f : ListingInfo → ListingInfo) (r0 : NameRecord)
      (o : Option ListingInfo)
      → h' ≡ h
      → Pns.resolve_name T (storage_at h) name ≡ some r0
      → o ≡ over C f (Pns.get_listing T (storage_at h') name)
      → (r0.for_sale ≡ true) ↔ (o ≢ none)
  agree name h h' f r0 o same resolved listed =
      let (to, from) = for_sale_iff T (storage_at h) name r0 resolved in
      let (up, down) = over-eq-none_iff f (Pns.get_listing T (storage_at h) name) in
      rw (listed, same) (λ x. down (to x), λ x. from (up x))

  -- Two answers about a name that were read at the same block agree: the record is marked for
  -- sale exactly if the other request found a listing, at whatever times the two were served.
  pub same_block :
      (name : Bytes) (w w' : World C) (r : NameRecord) (o : Option ListingInfo)
      → (serve C (pns_resolve_name name) w).0 ≡ ok (name_record (some r))
      → (serve C (pns_get_listing name) w').0 ≡ ok (listing o)
      → (C.info w'.reads).best_hash ≡ r.read_block_hash
      → (r.for_sale ≡ true) ↔ (o ≢ none)
  same_block name w w' r o found listed same =
      let chain = C.info w.reads in
      let (r0, resolved, stamped) =
        over-eq-some (stamp_name C chain) _ r (serve-resolve_name name w (some r) found) in
      rw (ap (λ (x : NameRecord). x.for_sale) stamped) (
        agree name chain.best_hash (C.info w'.reads).best_hash (stamp_listing C (C.info w'.reads))
          r0 o (same ∙ ap (λ (x : NameRecord). x.read_block_hash) stamped) resolved
          (serve-get_listing name w' o listed))
