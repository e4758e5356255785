-- ===== src/Runtime/Apis/Trials.antt =====
-- The APIs of runtime/src/apis.rs that only builds with the features runtime-benchmarks and
-- try-runtime have: Benchmark and TryRuntime. `unwrap` and `expect` panic.
use Prim.Native.String.{String}
use paseo_node.Base.{Bool, List, map, Result, ok, err}
use paseo_node.Base.Outcome.{Outcome, returns, panics, ◌>>=◌}
use paseo_node.Runtime.Config.Frame.{Weight}
use paseo_node.Runtime.Benchmarks.{benchmarks, add_benchmarks}
use paseo_node.Runtime.Apis.Types.{ApiTypes, Executive, Pallets}

-- `unwrap` and `expect` on a result, beside the state.
abbrev pub unwrap {ℓ κ μ} :
    {E : Type ℓ} {B : Type κ} {S : Type μ} → Result B E × S → Outcome (B × S)
unwrap (ok b, s) = returns (b, s)
unwrap (err e, s) = panics

module _ {A : ApiTypes} (pallets : Pallets A) where
  abbrev pub benchmark_metadata : Bool → List A.BenchmarkList × List A.StorageInfo
  benchmark_metadata extra = (map (pallets.list_benchmark extra) benchmarks, pallets.storage_info)

  abbrev pub dispatch_benchmark :
      A.BenchmarkConfig → A.State → Result A.BenchmarkBatches String × A.State
  dispatch_benchmark config s =
      add_benchmarks (pallets.add_benchmark (config, pallets.whitelisted_storage_keys)) benchmarks
        pallets.no_batches s

module _ {A : ApiTypes} (executive : Executive A) where
  abbrev pub on_runtime_upgrade :
      A.UpgradeCheckSelect → A.State → Outcome ((Weight × Weight) × A.State)
  on_runtime_upgrade checks s = do
    tried ← executive.try_runtime_upgrade checks s
    (weight, after) ← unwrap tried
    returns ((weight, executive.max_block), after)

  abbrev pub try_execute_block :
      A.Block → Bool → Bool → A.TryStateSelect → A.State → Outcome (Weight × A.State)
  try_execute_block block state_root_check signature_check select s = do
    tried ← executive.try_execute_block block state_root_check signature_check select s
    unwrap tried
