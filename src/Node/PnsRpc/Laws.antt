-- ===== src/Node/PnsRpc/Laws.antt =====
-- What the PNS methods of node/src/pns_rpc.rs guarantee to their caller.
use Prim.Native.String.{String}
use mathlib.Core.Path.{ap₂}
use paseo_node.Base.{
  ℕ, ◌+◌, ◌≡◌, refl, ap, inl, inr, Bool, true, false, ◌||◌, Option, none, some, List, [], ◌∷◌, ◌++◌,
  map, Bytes, arith, length, length-map, ltb, as_u16, ok, err, Bool-cases,
}
use paseo_node.Runtime.Types.{BlockNumber, DomainHash, Hash}
use paseo_node.Runtime.Pns.{PnsTypes}
use paseo_node.Node.PnsRpc.{
  internal_error, invalid_params, ErrorObject, Call, get_info_at, resolve_name_at, lookup_at,
  get_listing_at, lookup_by_name_at, Client, World, get_info, resolve_name, to_record_type, lookup,
  get_listing, lookup_by_name, Request, pns_get_info, pns_resolve_name, pns_lookup, pns_get_listing,
  pns_lookup_by_name, Response, name_record, records, listing, serve,
}

-- The requests over the limits: names of more than 128 bytes, more than 50 record types.
abbrev pub is_oversized : Request → Bool
is_oversized (pns_get_info node) = false
is_oversized (pns_resolve_name name) = ltb 128 (length name)
is_oversized (pns_lookup node codes) = ltb 50 (length codes)
is_oversized (pns_get_listing name) = ltb 128 (length name)
is_oversized (pns_lookup_by_name name codes) = ltb 128 (length name) || ltb 50 (length codes)

-- The block that an answer says it was read at.
abbrev pub read_at : Response → Option (BlockNumber × Hash)
read_at (name_record none) = none
read_at (name_record (some r)) = some (r.read_block_number, r.read_block_hash)
read_at (records rs) = none
read_at (listing none) = none
read_at (listing (some l)) = some (l.read_block_number, l.read_block_hash)

module _ {T : PnsTypes} (C : Client T) where
  -- The one runtime call of a request at a block.
  abbrev pub call_of : Request → Hash → Call T.RecordType
  call_of (pns_get_info node) h = get_info_at h node
  call_of (pns_resolve_name name) h = resolve_name_at h name
  call_of (pns_lookup node codes) h = lookup_at h node (map (to_record_type C) codes)
  call_of (pns_get_listing name) h = get_listing_at h name
  call_of (pns_lookup_by_name name codes) h =
      lookup_by_name_at h name (map (to_record_type C) codes)

  refused : String → ErrorObject
  refused message = record { code = invalid_params; message = message; details = none }

  -- An oversized request is refused as invalid before anything is read or called.
  pub serve_oversized :
      (req : Request) (w : World C)
      → is_oversized req ≡ true
      → (e : ErrorObject) × (e.code ≡ invalid_params) × (serve C req w ≡ (err e, w))
  unfolding serve resolve_name lookup get_listing lookup_by_name refused
  serve_oversized (pns_get_info node) w h = cc
  serve_oversized (pns_resolve_name name) w h = (refused "name too long", refl, rw h)
  serve_oversized (pns_lookup node codes) w h =
      (refused "too many record types (max 50)", refl, rw h)
  serve_oversized (pns_get_listing name) w h = (refused "name too long", refl, rw h)
  serve_oversized (pns_lookup_by_name name codes) w h = elim (Bool-cases (ltb 128 (length name))) [
    | inl long ↦ (refused "name too long", refl, rw long)
    | inr short ↦ (refused "too many record types (max 50)", refl, rw (short, rw short at h))
  ]

  -- A request within the limits reads the best block once and makes one runtime call, its own,
  -- at that block, whether it succeeds or not, and its only error is an internal one.
  pub serve_effects :
      (req : Request) (w : World C)
      → is_oversized req ≡ false
      → ((serve C req w).1 ≡ record {
        reads = w.reads + 1;
        calls = w.calls ++ (call_of req (C.info w.reads).best_hash ∷ []);
      })
        × ((e : ErrorObject) → (serve C req w).0 ≡ err e → e.code ≡ internal_error)
  unfolding serve get_info resolve_name lookup get_listing lookup_by_name
  serve_effects (pns_get_info node) w h = ground arith
  serve_effects (pns_resolve_name name) w h = rw h (ground arith)
  serve_effects (pns_lookup node codes) w h = rw h (ground arith)
  serve_effects (pns_get_listing name) w h = rw h (ground arith)
  serve_effects (pns_lookup_by_name name codes) w h = elim (Bool-cases (ltb 128 (length name))) [
    | inl long ↦ absurd (ground arith)
    | inr short ↦ rw (short, rw short at h) (ground arith)
  ]

  -- A record or a listing that is returned says the block at which it was read, number and hash
  -- of one read of the best block.
  pub serve-read_at :
      (req : Request) (w : World C) (answer : Response) (n : BlockNumber) (h : Hash)
      → (serve C req w).0 ≡ ok answer
      → read_at answer ≡ some (n, h)
      → (n ≡ (C.info w.reads).best_number) × (h ≡ (C.info w.reads).best_hash)
  unfolding serve get_info resolve_name lookup get_listing lookup_by_name
  serve-read_at (pns_get_info node) w answer n h e f = ground arith
  serve-read_at _ w answer n h e f = ground arith

  as_u16_twice : (n : ℕ) → as_u16 (as_u16 n) ≡ as_u16 n
  as_u16_twice n = omega arith

  to_record_type-as_u16 : (c : ℕ) → to_record_type C (as_u16 c) ≡ to_record_type C c
  unfolding to_record_type
  to_record_type-as_u16 c = ap (λ n. C.to_pns (C.from_u16 n)) (as_u16_twice c)

  map-truncated :
      (codes : List ℕ) → map (to_record_type C) (map as_u16 codes) ≡ map (to_record_type C) codes
  map-truncated [] = refl
  map-truncated (c ∷ codes) = ap₂ ◌∷◌ (to_record_type-as_u16 c) (map-truncated codes)

  -- Only the low 16 bits of a requested code count: both lookups answer codes and their
  -- remainders modulo 65536 alike, calls included.
  pub lookup_truncated :
      (node : DomainHash) (name : Bytes) (codes : List ℕ) (w : World C)
      → (serve C (pns_lookup node (map as_u16 codes)) w ≡ serve C (pns_lookup node codes) w)
        × (serve C (pns_lookup_by_name name (map as_u16 codes)) w
            ≡ serve C (pns_lookup_by_name name codes) w)
  unfolding serve lookup lookup_by_name
  lookup_truncated node name codes w = (
    rw (length-map as_u16 codes, map-truncated codes),
    rw (length-map as_u16 codes, map-truncated codes),
  )
