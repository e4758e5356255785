-- ===== src/Runtime/Adapters/Laws.antt =====
-- The guarantees of the adapters of runtime/src/configs/mod.rs.
use paseo_node.Base.{◌≡◌, refl, ◌↔◌, ◌⊎◌, true, none, arith, Result, ok, err, replicate}
use paseo_node.Runtime.Types.{AccountId, DomainHash}
use paseo_node.Runtime.Adapters.{try_origin, try_successful_origin, PnsPallets, check_node_useable}

-- An origin passes exactly if the root check passes it, always as the account of 32 zero bytes,
-- and one that does not pass comes back as the root check gives it back.
try_origin_iff {ℓ} :
    {RuntimeOrigin : Type ℓ} (ensure_root : RuntimeOrigin → Result (Unit {0}) RuntimeOrigin)
    (o : RuntimeOrigin)
    → ((a : AccountId)
        → (try_origin ensure_root o ≡ ok a) ↔ ((ensure_root o ≡ ok tt) × (a ≡ replicate 32 0)))
      × ((back : RuntimeOrigin)
          → (try_origin ensure_root o ≡ err back) ↔ (ensure_root o ≡ err back))
unfolding try_origin
try_origin_iff ensure_root o = (λ a. ground arith, λ back. ground arith)

-- The benchmarks' origin passes, as that account, where the root check passes the root.
try_origin-try_successful_origin {ℓ} :
    {RuntimeOrigin : Type ℓ} (ensure_root : RuntimeOrigin → Result (Unit {0}) RuntimeOrigin)
    (root : RuntimeOrigin)
    → ensure_root root ≡ ok tt
    → (o : RuntimeOrigin) × (try_successful_origin root ≡ ok o)
      × (try_origin ensure_root o ≡ ok (replicate 32 0))
unfolding try_origin try_successful_origin
try_origin-try_successful_origin ensure_root root h = (root, refl, rw h refl)

-- A node is useable by an account exactly if the registry verifies the account for it and the
-- registrar, where it knows the node, finds that the node has not expired. A node that the
-- registrar does not know never expires.
pub check_node_useable_iff :
    (P : PnsPallets) (node : DomainHash) (owner : AccountId) (s : P.State)
    → (check_node_useable P node owner s ≡ true) ↔ (
        (P.verify owner node s ≡ ok tt)
        × ((P.get_info node s ≡ none) ⊎ (P.check_expires_useable node s ≡ ok tt)))
unfolding check_node_useable
check_node_useable_iff P node owner s = ground arith
