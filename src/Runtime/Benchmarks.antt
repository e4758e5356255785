-- ===== src/Runtime/Benchmarks.antt =====
-- The benchmarks that runtime/src/benchmarks.rs lists, under the feature `runtime-benchmarks`.
use Prim.Native.String.{String}
use paseo_node.Base.{List, [], ◌∷◌, Result, ok, err}
use paseo_node.Runtime.Pallets.{
  Pallet, balances, timestamp, pns_price_oracle, pns_registry, pns_registrar, pns_resolvers,
  pns_marketplace, zk_pki,
}

-- The second name of a row: a pallet of the runtime, or one of the three of the benchmark crates.
pub data Benchmarked : Type 0 where
  baseline_bench system_bench system_extensions_bench : Benchmarked
  the_pallet : Pallet → Benchmarked

abbrev pub Row : Type 0
Row = String × Benchmarked

unfoldable pub benchmarks : List Row
benchmarks =
    ("frame_benchmarking", baseline_bench)
    ∷ ("frame_system", system_bench)
    ∷ ("frame_system_extensions", system_extensions_bench)
    ∷ ("pallet_balances", the_pallet balances)
    ∷ ("pallet_timestamp", the_pallet timestamp)
    ∷ ("pns_registrar::price_oracle", the_pallet pns_price_oracle)
    ∷ ("pns_registrar::registry", the_pallet pns_registry)
    ∷ ("pns_registrar::registrar", the_pallet pns_registrar)
    ∷ ("pns_resolvers::resolvers", the_pallet pns_resolvers)
    ∷ ("pns_marketplace", the_pallet pns_marketplace)
    ∷ ("zk_pki_pallet", the_pallet zk_pki)
    ∷ []

-- `add_benchmarks!`: each row in turn, until one fails.
module _ {Batches S : Type 0} (add_benchmark : Row → Batches → S → Result Batches String × S) where
  unfoldable pub add_benchmarks : List Row → Batches → S → Result Batches String × S
  add_benchmarks [] batches s = (ok batches, s)
  add_benchmarks (row ∷ rows) batches s =
      let (added, after) = add_benchmark row batches s in
      elim added [ ok more ↦ add_benchmarks rows more after | err message ↦ (err message, after) ]
