-- ===== src/Examples/Commands.antt =====
-- Runs of subcommands over the keyring of six keys.
use Prim.Native.String.{String}
use paseo_node.Base.{◌≡◌, refl, false, some, [], ◌∷◌, All, Result, err}
use paseo_node.Node.Effect.{done, failed, Oracle, accepts, refuses, perform}
use paseo_node.Node.Effect.Laws.{steps}
use paseo_node.Node.Effect.Within.{within}
use paseo_node.Node.Service
use paseo_node.Node.ChainSpec.{load_spec}
use paseo_node.Node.Command.{
  pallet, export_chain_spec, check_block, benchmark, Step, create_runner, command, Environment, run,
  run_with_client, run_benchmark, fail,
}
use paseo_node.Node.Command.Laws.{run_plan, run-steps}
use paseo_node.Node.Command.Offline.{IsOutside, run_offline}
use paseo_node.Examples.Genesis.{toy}
use paseo_node.Examples.Service.{observer}

abbrev pub unreadable : String → Result (Unit {0}) String
unreadable path = err "No such file or directory"

abbrev pub no_benchmarks : Environment
no_benchmarks = record {
  Error = String;
  from_string = λ message. message;
  types = toy;
  wasm_binary = some (1 ∷ []);
  FileSpec = Unit {0};
  from_json_file = unreadable;
  configuration = λ sub. observer;
  runtime_benchmarks = false;
}

abbrev willing : Oracle (Step (Unit {0})) String
willing before step = accepts

abbrev locked : Oracle (Step (Unit {0})) String
locked before (command _) = refuses "The database is locked"
locked before _ = accepts

benchmarks_off :
    run no_benchmarks (some (benchmark pallet)) willing []
    ≡ (failed "Runtime benchmarking not enabled.", create_runner (some (benchmark pallet)) ∷ [])
unfolding run run_benchmark fail perform
benchmarks_off = refl

no_such_file :
    run no_benchmarks (some (export_chain_spec "chain.json")) willing []
    ≡ (failed "No such file or directory", [])
unfolding run load_spec fail
no_such_file = refl

check_block_runs : (run no_benchmarks (some check_block) willing []).0 ≡ done tt
unfolding run run_with_client within Service.new_partial perform
check_block_runs = refl

run-steps_example :
    (run no_benchmarks (some check_block) willing []).1
    ≡ steps (run_plan no_benchmarks (some check_block))
run-steps_example = run-steps no_benchmarks (some check_block) willing check_block_runs

-- The runner is there, and the specification is not exported.
abbrev no_disk : Oracle (Step (Unit {0})) String
no_disk t (command sub) = refuses "disk full"
no_disk t _ = accepts

run_offline_example :
    All IsOutside (run no_benchmarks (some (export_chain_spec "local")) no_disk []).1
run_offline_example = run_offline no_benchmarks (some (export_chain_spec "local")) no_disk refl
