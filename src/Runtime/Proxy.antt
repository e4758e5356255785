-- ===== src/Runtime/Proxy.antt =====
-- `PalletProxyValidator` of runtime/src/proxy_validator.rs, and the call filter of configs/mod.rs.
pub mod Laws
use paseo_node.Base.{ℕ, Bool, true, List, any, ◌==◌, list_eq, nat_eq}
use paseo_node.Runtime.Types.{AccountId, Balance, BlockNumber}

pub data ProxyType : Type 0 where
  any_type : ProxyType

-- `InstanceFilter::filter`; `Call` is the runtime's call type.
unfoldable pub filter {ℓ} : {Call : Type ℓ} → ProxyType → Call → Bool
filter any_type call = true

-- `pallet_proxy::ProxyDefinition`
pub record ProxyDefinition : Type 0 where
  pub delegate : AccountId
  pub proxy_type : ProxyType
  pub delay : BlockNumber

-- `pallet_proxy::Proxies`, a map with a default: the proxies of an account and its deposit.
abbrev pub Proxies : Type 0
Proxies = AccountId → List ProxyDefinition × Balance

unfoldable pub has_proxy : Proxies → AccountId → AccountId → Bool
has_proxy proxies_of delegator delegatee =
    let (proxies, _) = proxies_of delegator in any (λ def. def.delegate == delegatee) proxies
