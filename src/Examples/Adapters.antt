-- ===== src/Examples/Adapters.antt =====
-- The adapters and the proxy check at small data.
use mathlib.Core.List.{Memᴰ}
use paseo_node.Base.{
  ℕ, ◌≡◌, refl, ◌↔◌, ◌⊎◌, true, false, none, some, List, [], ◌∷◌, Bytes, ok, err, ◌==◌, nat_eq,
  list_eq, if◌then◌else◌,
}
use paseo_node.Runtime.Proxy.{any_type, ProxyDefinition, Proxies, has_proxy}
use paseo_node.Runtime.Proxy.Laws.{has_proxy_iff}
use paseo_node.Runtime.Adapters.{PnsPallets, check_node_useable}
use paseo_node.Runtime.Adapters.Laws.{check_node_useable_iff}

-- The state is the list of the nodes that have expired. Every account owns every node.
abbrev pub toy : PnsPallets
toy = record {
  State = List Bytes;
  DispatchError = ℕ;
  set_ss58_record = λ node owner s. (ok tt, s);
  set_origin_record = λ node hash s. (ok tt, s);
  clear_records_except_ss58 = λ node s. s;
  clear_all_records = λ node s. s;
  verify = λ owner node s. ok tt;
  RegistrarInfo = ℕ;
  get_info = λ node s. some 4;
  check_expires_useable = λ node s. if s == (node ∷ []) then err 1 else ok tt;
  author = λ s. none;
}

expired_node : check_node_useable toy (1 ∷ []) (2 ∷ []) ((1 ∷ []) ∷ []) ≡ false
unfolding check_node_useable
expired_node = refl

check_node_useable_iff_example : (check_node_useable toy (1 ∷ []) (2 ∷ []) [] ≡ true) ↔ (
    (toy.verify (2 ∷ []) (1 ∷ []) [] ≡ ok tt)
    × ((toy.get_info (1 ∷ []) [] ≡ none) ⊎ (toy.check_expires_useable (1 ∷ []) [] ≡ ok tt)))
check_node_useable_iff_example = check_node_useable_iff toy (1 ∷ []) (2 ∷ []) []

-- Account 1 has account 2 as its proxy, and no other account has any.
abbrev proxies_of : Proxies
proxies_of a =
    if a == (1 ∷ [])
    then (record { delegate = 2 ∷ []; proxy_type = any_type; delay = 10 } ∷ [], 0)
    else ([], 0)

proxy_runs :
    (has_proxy proxies_of (1 ∷ []) (2 ∷ []) ≡ true)
    × (has_proxy proxies_of (2 ∷ []) (1 ∷ []) ≡ false)
unfolding has_proxy
proxy_runs = (refl, refl)

has_proxy_iff_example :
    (has_proxy proxies_of (1 ∷ []) (2 ∷ []) ≡ true)
    ↔ ((def : ProxyDefinition) × Memᴰ def (proxies_of (1 ∷ [])).0 × (def.delegate ≡ 2 ∷ []))
has_proxy_iff_example = has_proxy_iff proxies_of (1 ∷ []) (2 ∷ [])
