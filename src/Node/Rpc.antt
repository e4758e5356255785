-- ===== src/Node/Rpc.antt =====
-- The JSON-RPC module of node/src/rpc.rs: the methods of four servers, joined.
pub mod Namespace
use Prim.Native.String.{String}
use mathlib.Core.List.{Memᴰ}
use mathlib.Core.Path.{subst}
use paseo_node.Base.{
  Option, ◌≡◌, ◌↔◌, refl, sym, ◌∙◌, List, [], ◌∷◌, Result, ok, err, ◌⊎◌, inl, inr,
}

-- `jsonrpsee::RpcModule` and its `merge`, with the servers of the other crates.
pub record RpcTypes : Type 1 where
  pub RpcModule : Type 0
  pub MergeError : Type 0
  pub new : RpcModule
  pub merge : RpcModule → RpcModule → Result RpcModule MergeError
  pub method_names : RpcModule → List String
  pub Callback : Type 0
  pub callback : RpcModule → String → Option Callback
  -- the node's client and its transaction pool
  pub Client : Type 0
  pub Pool : Type 0
  pub system : Client → Pool → RpcModule
  pub transaction_payment : Client → RpcModule
  pub pns : Client → RpcModule
  pub zk_pki : Client → RpcModule

pub record FullDeps (T : RpcTypes) : Type 0 where
  pub client : T.Client
  pub pool : T.Pool

abbrev then_merge :
    (T : RpcTypes) → Result T.RpcModule T.MergeError → T.RpcModule → Result T.RpcModule T.MergeError
then_merge T (ok m) n = T.merge m n
then_merge T (err e) n = err e

unfoldable pub create_full : (T : RpcTypes) → FullDeps T → Result T.RpcModule T.MergeError
create_full T deps =
    let module_system = T.merge T.new (T.system deps.client deps.pool) in
    let module_payment = then_merge T module_system (T.transaction_payment deps.client) in
    let module_pns = then_merge T module_payment (T.pns deps.client) in
    then_merge T module_pns (T.zk_pki deps.client)

abbrev pub AreDisjoint : List String → List String → Type 0
AreDisjoint xs ys = (s : String) → Memᴰ s xs → Memᴰ s ys → ⊥

-- What jsonrpsee documents: a new module is empty, and modules without a common name are merged:
-- the result has the names of both, each with its callback.
pub record IsMerging (T : RpcTypes) : Type 0 where
  pub new-IsEmpty : (s : String) → Memᴰ s (T.method_names T.new) → ⊥
  pub merged :
      (m n : T.RpcModule)
      → AreDisjoint (T.method_names m) (T.method_names n)
      → (r : T.RpcModule) × (T.merge m n ≡ ok r)
        × ((s : String)
            → Memᴰ s (T.method_names r) ↔ (Memᴰ s (T.method_names m) ⊎ Memᴰ s (T.method_names n)))
        × ((s : String) → Memᴰ s (T.method_names m) → T.callback r s ≡ T.callback m s)
        × ((s : String) → Memᴰ s (T.method_names n) → T.callback r s ≡ T.callback n s)

module _ (T : RpcTypes) (deps : FullDeps T) where
  open T use {RpcModule, MergeError, method_names}
  open deps use {client, pool}

  abbrev pub system_server : RpcModule
  system_server = T.system client pool

  abbrev pub payment_server : RpcModule
  payment_server = T.transaction_payment client

  abbrev pub pns_server : RpcModule
  pns_server = T.pns client

  abbrev pub zk_pki_server : RpcModule
  zk_pki_server = T.zk_pki client

  abbrev pub all_servers : List RpcModule
  all_servers = zk_pki_server ∷ pns_server ∷ payment_server ∷ system_server ∷ []

  module _ (K : IsMerging T) where
    -- Every method of the servers is one of the module's, with the server's callback.
    abbrev pub Reaches : RpcModule → List RpcModule → Type 0
    Reaches m servers =
        (p : RpcModule)
        → Memᴰ p servers
        → (s : String) → Memᴰ s (method_names p)
        → Memᴰ s (method_names m) × (T.callback m s ≡ T.callback p s)

    -- Every method of the module is one of a server's.
    abbrev pub IsOf : RpcModule → List RpcModule → Type 0
    IsOf m servers =
        (s : String)
        → Memᴰ s (method_names m)
        → (p : RpcModule) × Memᴰ p servers × Memᴰ s (method_names p)

    -- A module that has exactly the servers' methods, with the servers' callbacks.
    abbrev pub Holds : Result RpcModule MergeError → List RpcModule → Type 0
    Holds r servers = (m : RpcModule) × (r ≡ ok m) × IsOf m servers × Reaches m servers

    -- No server of the list has a method of the module.
    abbrev pub AreApart : List RpcModule → RpcModule → Type 0
    AreApart servers n =
        (p : RpcModule) → Memᴰ p servers → AreDisjoint (method_names p) (method_names n)

    IsOf-AreDisjoint :
        (m n : RpcModule) (servers : List RpcModule)
        → IsOf m servers
        → AreApart servers n
        → AreDisjoint (method_names m) (method_names n)
    IsOf-AreDisjoint m n servers from apart s here there =
        let (p, listed, its) = from s here in apart p listed s its there

    IsOf-merge :
        (m n joined : RpcModule) (servers : List RpcModule)
        → ((s : String)
            → Memᴰ s (method_names joined)
            → Memᴰ s (method_names m) ⊎ Memᴰ s (method_names n))
        → IsOf m servers
        → IsOf joined (n ∷ servers)
    IsOf-merge m n joined servers split from s listed = elim (split s listed) [
      | inl old ↦ let (p, member, its) = from s old in (p, Memᴰ.tail member, its)
      | inr new ↦ (n, Memᴰ.head refl, new)
    ]

    Reaches-merge :
        (m n joined : RpcModule) (servers : List RpcModule)
        → ((s : String)
            → Memᴰ s (method_names m) ⊎ Memᴰ s (method_names n)
            → Memᴰ s (method_names joined))
        → ((s : String) → Memᴰ s (method_names m) → T.callback joined s ≡ T.callback m s)
        → ((s : String) → Memᴰ s (method_names n) → T.callback joined s ≡ T.callback n s)
        → Reaches m servers
        → Reaches joined (n ∷ servers)
    Reaches-merge m n joined servers all old new reaches p (Memᴰ.head e) s listed =
        let here : Memᴰ s (method_names n) = rw (← e) listed in
        (all s (inr here), new s here ∙ rw e refl)
    Reaches-merge m n joined servers all old new reaches p (Memᴰ.tail q) s listed =
        let (there, same) = reaches p q s listed in (all s (inl there), old s there ∙ same)

    Holds-merge :
        (r : Result RpcModule MergeError) (servers : List RpcModule) (n : RpcModule)
        → Holds r servers
        → AreApart servers n
        → Holds (then_merge T r n) (n ∷ servers)
    Holds-merge r servers n (m, e, from, reaches) apart =
        let (joined, made, all, old, new) =
          K.merged m n (IsOf-AreDisjoint m n servers from apart) in
        (
          joined,
          rw e made,
          IsOf-merge m n joined servers (λ s. (all s).0) from,
          Reaches-merge m n joined servers (λ s. (all s).1) old new reaches,
        )

    AreApart-cons :
        (m n : RpcModule) (servers : List RpcModule)
        → AreDisjoint (method_names m) (method_names n)
        → AreApart servers n
        → AreApart (m ∷ servers) n
    AreApart-cons m n servers first rest p (Memᴰ.head e) =
        subst (λ x. AreDisjoint (method_names x) (method_names n)) (sym e) first
    AreApart-cons m n servers first rest p (Memᴰ.tail q) = rest p q

    -- When no two of the four servers have a method name in common, the module that the node serves
    -- is made, has exactly their methods, and answers each of them by the callback of its server.
    pub create_full_methods :
        AreDisjoint (method_names system_server) (method_names payment_server)
        → AreDisjoint (method_names system_server) (method_names pns_server)
        → AreDisjoint (method_names payment_server) (method_names pns_server)
        → AreDisjoint (method_names system_server) (method_names zk_pki_server)
        → AreDisjoint (method_names payment_server) (method_names zk_pki_server)
        → AreDisjoint (method_names pns_server) (method_names zk_pki_server)
        → Holds (create_full T deps) all_servers
    unfolding create_full
    create_full_methods system_payment system_pns payment_pns system_pki payment_pki pns_pki =
        Holds-merge _ _ zk_pki_server
          (Holds-merge _ _ pns_server
            (Holds-merge _ _ payment_server
              (Holds-merge (ok T.new) [] system_server
                (T.new, refl, (λ s listed. absurd (K.new-IsEmpty s listed)), λ p q. elim q [ ])
                (λ p q. elim q [ ]))
              (AreApart-cons _ _ _ system_payment (λ p q. elim q [ ])))
            (AreApart-cons _ _ _ payment_pns (AreApart-cons _ _ _ system_pns (λ p q. elim q [ ]))))
          (AreApart-cons _ _ _ pns_pki
            (AreApart-cons _ _ _ payment_pki (AreApart-cons _ _ _ system_pki (λ p q. elim q [ ]))))
