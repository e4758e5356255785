-- ===== src/Node/Rpc/Namespace.antt =====
-- The PNS methods of node/src/pns_rpc.rs in the module of node/src/rpc.rs.
use Prim.Native.String.{String}
use mathlib.Core.List.{Memᴰ}
use mathlib.Core.Path.{subst}
use mathlib.Core.Bool.{false≢true}
use paseo_node.Base.{
  ℕ, ◌≡◌, ◌↔◌, refl, sym, ◌∙◌, Bool, true, false, ◌&&◌, List, [], ◌∷◌, ◌==◌, nat_eq, codes, ok, All,
}
use paseo_node.Node.PnsRpc.{
  Request, pns_get_info, pns_resolve_name, pns_lookup, pns_get_listing, pns_lookup_by_name,
}
use paseo_node.Node.Rpc.{
  RpcTypes, FullDeps, create_full, AreDisjoint, IsMerging, system_server, payment_server,
  pns_server, zk_pki_server, all_servers, IsOf, Reaches, create_full_methods,
}

-- The names that the methods of the trait are given.
unfoldable pub method_name : Request → String
method_name (pns_get_info node) = "pns_getInfo"
method_name (pns_resolve_name name) = "pns_resolveName"
method_name (pns_lookup node codes) = "pns_lookup"
method_name (pns_get_listing name) = "pns_getListing"
method_name (pns_lookup_by_name name codes) = "pns_lookupByName"

-- All of them, in the order of the trait.
abbrev pub pns_methods : List String
pns_methods =
    "pns_getInfo" ∷ "pns_resolveName" ∷ "pns_lookup" ∷ "pns_getListing" ∷ "pns_lookupByName" ∷ []

abbrev starts_with : List ℕ → List ℕ → Bool
starts_with [] ys = true
starts_with (x ∷ xs) [] = false
starts_with (x ∷ xs) (y ∷ ys) = (x == y) && starts_with xs ys

abbrev pub is_pns_name : String → Bool
is_pns_name s = starts_with (codes "pns_") (codes s)

named_of_mem :
    (names : List String) (s : String)
    → All (λ n. is_pns_name n ≡ true) names
    → Memᴰ s names
    → is_pns_name s ≡ true
named_of_mem [] s all m = elim m [ ]
named_of_mem (n ∷ names) s (first, rest) (Memᴰ.head e) =
    subst (λ x. is_pns_name x ≡ true) (sym e) first
named_of_mem (n ∷ names) s (first, rest) (Memᴰ.tail m) = named_of_mem names s rest m

method_name-listed : (req : Request) → Memᴰ (method_name req) pns_methods
unfolding method_name
method_name-listed (pns_get_info node) = Memᴰ.head refl
method_name-listed (pns_resolve_name name) = Memᴰ.tail (Memᴰ.head refl)
method_name-listed (pns_lookup node codes) = Memᴰ.tail (Memᴰ.tail (Memᴰ.head refl))
method_name-listed (pns_get_listing name) = Memᴰ.tail (Memᴰ.tail (Memᴰ.tail (Memᴰ.head refl)))
method_name-listed (pns_lookup_by_name name codes) =
    Memᴰ.tail (Memᴰ.tail (Memᴰ.tail (Memᴰ.tail (Memᴰ.head refl))))

-- No method of a list is in the namespace of PNS.
abbrev pub IsOutside : List String → Type 0
IsOutside names = (s : String) → Memᴰ s names → is_pns_name s ≡ false

-- A list has the names of the methods of PNS, in some order.
abbrev pub IsPnsNames : List String → Type 0
IsPnsNames names = (s : String) → Memᴰ s names ↔ Memᴰ s pns_methods

IsOutside-AreDisjoint : (xs ys : List String) → IsOutside xs → IsPnsNames ys → AreDisjoint xs ys
IsOutside-AreDisjoint xs ys outside named s m n = false≢true (
    sym (outside s m)
    ∙ named_of_mem pns_methods s (refl, (refl, (refl, (refl, (refl, tt))))) ((named s).0 n))

AreDisjoint-sym : (xs ys : List String) → AreDisjoint xs ys → AreDisjoint ys xs
AreDisjoint-sym xs ys f s m n = f s n m

module _ (T : RpcTypes) (deps : FullDeps T) (K : IsMerging T) where
  open T use {method_names}

  -- Where jsonrpsee merges modules as documented, its macro `rpc` gives the PNS server the methods
  -- of the trait, and no other server has a method in their namespace, or one of each other's, the
  -- module that the node serves is made, it has exactly the methods of the four servers, each with
  -- its server's callback, and so every PNS request reaches the PNS server's own callback in it,
  -- under the method's name.
  pub create_full-method_name :
      IsPnsNames (method_names (pns_server T deps))
      → IsOutside (method_names (system_server T deps))
      → IsOutside (method_names (payment_server T deps))
      → IsOutside (method_names (zk_pki_server T deps))
      → AreDisjoint (method_names (system_server T deps)) (method_names (payment_server T deps))
      → AreDisjoint (method_names (system_server T deps)) (method_names (zk_pki_server T deps))
      → AreDisjoint (method_names (payment_server T deps)) (method_names (zk_pki_server T deps))
      → (m : T.RpcModule) × (create_full T deps ≡ ok m)
        × IsOf T deps K m (all_servers T deps)
        × Reaches T deps K m (all_servers T deps)
        × ((req : Request)
            → Memᴰ (method_name req) (method_names m)
              × (T.callback m (method_name req) ≡ T.callback (pns_server T deps) (method_name req)))
  create_full-method_name named out_system out_payment out_pki system_payment system_pki
        payment_pki =
      let pns = method_names (pns_server T deps) in
      let (m, made, from, reaches) =
        create_full_methods T deps K system_payment (IsOutside-AreDisjoint _ pns out_system named)
          (IsOutside-AreDisjoint _ pns out_payment named) system_pki payment_pki
          (AreDisjoint-sym _ pns (IsOutside-AreDisjoint _ pns out_pki named)) in
      (
        m,
        made,
        from,
        reaches,
        λ req.
            reaches (pns_server T deps) (Memᴰ.tail (Memᴰ.head refl)) (method_name req)
              ((named (method_name req)).1 (method_name-listed req)),
      )
