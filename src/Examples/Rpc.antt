-- ===== src/Examples/Rpc.antt =====
-- Requests to a node whose best block advances between two reads.
use paseo_node.Base.{
  ℕ, zero, suc, ◌≤◌, Bool-cases, arith, ◌≡◌, refl, ◌≢◌, ◌↔◌, inl, true, Option, none, some, List,
  [], ◌∷◌, map, All, Bytes, codes, as_u16, replicate, ok, err, ◌==◌, nat_eq, list_eq, if◌then◌else◌,
}
use paseo_node.Runtime.Types.{Hash}
use paseo_node.Runtime.Pns
use paseo_node.Runtime.Pns.{NameRecord, ListingInfo, Storage}
use paseo_node.Runtime.Pns.Laws.{IsResolved}
use paseo_node.Node.PnsRpc.{
  ChainInfo, ErrorObject, Request, invalid_params, internal_error, Client, World, resolve_name_at,
  stamp_name, pns_resolve_name, pns_get_listing, pns_lookup, pns_lookup_by_name, name_record,
  records, listing, serve, resolve_name, lookup, get_listing, to_record_type, from_record,
}
use paseo_node.Node.PnsRpc.Laws.{call_of, serve_oversized, serve_effects, lookup_truncated}
use paseo_node.Node.PnsRpc.Chain.{RunsRuntime, serve-IsResolved, same_block}
use paseo_node.Node.PnsRpc.Sessions.{Ascending, stamps, session, session-Ascending}
use paseo_node.Examples.Names.{toy, store, sold}

-- Block 0 is the best block at the first read, and block 1 after that.
abbrev pub blocks : ℕ → ChainInfo
blocks n =
    if n == 0
    then record { best_hash = 0 ∷ []; best_number = 40 }
    else record { best_hash = 1 ∷ []; best_number = 41 }

abbrev pub storage_at : Hash → Storage toy
storage_at h = store

abbrev pub client : Client toy
client = record {
  ApiError = ℕ;
  debug = λ e. "failed";
  info = blocks;
  api_get_info = λ h node. ok (Pns.get_info toy (storage_at h) node);
  api_resolve_name = λ h name. ok (Pns.resolve_name toy (storage_at h) name);
  api_lookup = λ h node types. ok (map (λ t. (t, 5 ∷ [])) types);
  api_get_listing = λ h name. ok (Pns.get_listing toy (storage_at h) name);
  api_lookup_by_name = λ h name types. err 3;
  HickoryType = ℕ;
  from_u16 = λ n. n;
  to_u16 = λ n. n;
  to_pns = λ n. n;
  from_pns = λ n. n;
}

pub client-RunsRuntime : RunsRuntime client storage_at
client-RunsRuntime = record {
  runs_get_info = λ h node. inl refl;
  runs_resolve_name = λ h name. inl refl;
  runs_get_listing = λ h name. inl refl;
}

-- At the first read: block 0.
abbrev pub first : World client
first = record { reads = 0; calls = [] }

abbrev pub sold_at_0 : NameRecord
sold_at_0 = record sold { read_block_number = 40; read_block_hash = 0 ∷ [] }

sold_is_served : serve client (pns_resolve_name (codes "sold")) first ≡ (
  ok (name_record (some sold_at_0)),
  record { reads = 1; calls = resolve_name_at (0 ∷ []) (codes "sold") ∷ [] },
)
unfolding serve resolve_name Pns.resolve_name
sold_is_served = refl

abbrev sold_listing : ListingInfo
sold_listing = record {
  seller = replicate 32 1;
  price = 9;
  expires_at = 4000;
  read_block_number = 40;
  read_block_hash = 0 ∷ [];
}

sold_is_listed :
    (serve client (pns_get_listing (codes "sold")) first).0 ≡ ok (listing (some sold_listing))
unfolding serve get_listing Pns.get_listing
sold_is_listed = refl

codes_are_served :
    (serve client (pns_lookup (1 ∷ []) (65537 ∷ 16 ∷ [])) first).0
    ≡ ok (records ((1, 5 ∷ []) ∷ (16, 5 ∷ []) ∷ []))
unfolding serve lookup to_record_type from_record
codes_are_served = refl

served :
    (serve client (pns_resolve_name (codes "sold")) first).0 ≡ ok (name_record (some sold_at_0))
unfolding serve resolve_name Pns.resolve_name
served = refl

serve-IsResolved_example :
    (l : Bytes × ℕ) × (r0 : NameRecord) × (toy.new_with_len (codes "sold") ≡ some l)
    × IsResolved toy
        (storage_at sold_at_0.read_block_hash)
        (toy.encode_with_node l.0 toy.native_basenode)
        r0
    × (sold_at_0 ≡ stamp_name client (blocks 0) r0)
serve-IsResolved_example =
    serve-IsResolved client storage_at client-RunsRuntime (codes "sold") first sold_at_0 served

same_block_example :
    (sold_at_0.for_sale ≡ true) ↔ (◌≢◌ {A = Option ListingInfo} (some sold_listing) none)
same_block_example =
    same_block client storage_at client-RunsRuntime (codes "sold") first first sold_at_0
      (some sold_listing) served sold_is_listed refl

long_name : Bytes
long_name = replicate 129 b'a'

serve_oversized_example :
    (e : ErrorObject) × (e.code ≡ invalid_params)
    × (serve client (pns_resolve_name long_name) first ≡ (err e, first))
unfolding long_name
serve_oversized_example = serve_oversized client (pns_resolve_name long_name) first refl

serve_effects_example :
    ((serve client (pns_lookup_by_name (codes "sold") (1 ∷ [])) first).1 ≡ record {
      reads = 1;
      calls = call_of client (pns_lookup_by_name (codes "sold") (1 ∷ [])) (0 ∷ []) ∷ [];
    })
    × ((e : ErrorObject)
        → (serve client (pns_lookup_by_name (codes "sold") (1 ∷ [])) first).0 ≡ err e
        → e.code ≡ internal_error)
serve_effects_example = serve_effects client (pns_lookup_by_name (codes "sold") (1 ∷ [])) first refl

pub blocks_advance : (i j : ℕ) → i ≤ j → (blocks i).best_number ≤ (blocks j).best_number
blocks_advance zero j h = ground (arith, Bool-cases (j == 0))
blocks_advance (suc i) zero h = absurd (omega arith)
blocks_advance (suc i) (suc j) h = grind arith

-- Two names, with a name between them that is over the limit.
abbrev pub three : List Request
three =
    pns_resolve_name (codes "sold")
    ∷ pns_get_listing (replicate 129 b'a')
    ∷ pns_get_listing (codes "sold")
    ∷ []

session-Ascending_example :
    All (λ n. 40 ≤ n) (stamps (session client three first).0)
    × Ascending (stamps (session client three first).0)
    × ((session client three first).1.reads ≡ 2)
session-Ascending_example = session-Ascending client blocks_advance three first

lookup_truncated_example :
    (serve client (pns_lookup (1 ∷ []) (map as_u16 (65537 ∷ []))) first
      ≡ serve client (pns_lookup (1 ∷ []) (65537 ∷ [])) first)
    × (serve client (pns_lookup_by_name (codes "a") (map as_u16 (65537 ∷ []))) first
        ≡ serve client (pns_lookup_by_name (codes "a") (65537 ∷ [])) first)
lookup_truncated_example = lookup_truncated client (1 ∷ []) (codes "a") (65537 ∷ []) first
