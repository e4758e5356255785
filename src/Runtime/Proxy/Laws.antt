-- ===== src/Runtime/Proxy/Laws.antt =====
-- What the proxy check of runtime/src/proxy_validator.rs decides.
use mathlib.Core.List.{Memᴰ}
use paseo_node.Base.{
  ◌≡◌, refl, ap, sym, ◌∙◌, ◌↔◌, inl, inr, true, List, [], ◌∷◌, any, arith, Bool-cases, ◌==◌,
  list_eq, nat_eq, same_list_iff,
}
use paseo_node.Runtime.Types.{AccountId}
use paseo_node.Runtime.Proxy.{ProxyDefinition, Proxies, has_proxy}

any_to :
    (delegatee : AccountId) (defs : List ProxyDefinition)
    → any (λ def. def.delegate == delegatee) defs ≡ true
    → (def : ProxyDefinition) × Memᴰ def defs × (def.delegate ≡ delegatee)
any_to delegatee [] h = cc
any_to delegatee (d ∷ defs) h = elim (Bool-cases (d.delegate == delegatee)) [
  | inl same ↦ (d, Memᴰ.head refl, (same_list_iff d.delegate delegatee).0 same)
  | inr other ↦
      let (def, listed, e) = any_to delegatee defs (rw other at h) in (def, Memᴰ.tail listed, e)
]

any_of :
    (delegatee : AccountId) (defs : List ProxyDefinition) (def : ProxyDefinition)
    → Memᴰ def defs
    → def.delegate ≡ delegatee
    → any (λ def. def.delegate == delegatee) defs ≡ true
any_of delegatee [] def m h = elim m [ ]
any_of delegatee (d ∷ defs) def (Memᴰ.head e) h =
    rw ((same_list_iff d.delegate delegatee).1 (ap (λ p. p.delegate) (sym e) ∙ h))
any_of delegatee (d ∷ defs) def (Memᴰ.tail m) h = ground (arith, any_of delegatee defs def m h)

-- An account has a proxy relation with another exactly if some definition stored under the first
-- names the second as its delegate, whatever the definition's type and delay.
pub has_proxy_iff :
    (proxies_of : Proxies) (delegator delegatee : AccountId)
    → (has_proxy proxies_of delegator delegatee ≡ true)
      ↔ ((def : ProxyDefinition) × Memᴰ def (proxies_of delegator).0 × (def.delegate ≡ delegatee))
unfolding has_proxy
has_proxy_iff proxies_of delegator delegatee = (
  any_to delegatee (proxies_of delegator).0,
  λ (def, m, e). any_of delegatee (proxies_of delegator).0 def m e,
)
