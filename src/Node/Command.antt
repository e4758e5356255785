-- ===== src/Node/Command.antt =====
-- The command line: `run` of node/src/command.rs, with the subcommands of node/src/cli.rs.
-- Of a subcommand's arguments only the chain of `export-chain-spec` is read here. A runner, the
-- commands and the data for benchmarks are calls of the SDK, and so are steps.
pub mod Laws
pub mod Offline
pub mod Texts
use Prim.Native.String.{String}
use paseo_node.Base.{Bool, true, false, Option, none, some, Bytes, Result, ok, err, if◌then◌else◌}
use paseo_node.Runtime.Genesis.{GenesisTypes}
use paseo_node.Node.ChainSpec.{ChainSpec, load_spec}
use paseo_node.Node.Effect.{
  Mode, fallible, Exit, failed, Program, next, ◌>>=◌, ◌>>◌, return, perform,
}
use paseo_node.Node.Effect.Within.{within}
use paseo_node.Node.Service

-- `frame_benchmarking_cli::BenchmarkCmd`
pub data BenchmarkCmd : Type 0 where
  pallet block storage overhead extrinsic machine : BenchmarkCmd

pub data Subcommand : Type 0 where
  key build_spec : Subcommand
  export_chain_spec : String → Subcommand
  check_block export_blocks export_state import_blocks purge_chain revert : Subcommand
  benchmark : BenchmarkCmd → Subcommand
  chain_info : Subcommand

module _ (FileSpec : Type 0) where
  pub data Step : Type 0 where
    create_runner : Option Subcommand → Step
    service : Service.Step → Step
    inherent_benchmark_data : Step
    -- the `run` of the subcommand
    command : Subcommand → Step
    -- the `run` of `export-chain-spec`, with the specification
    export_spec : ChainSpec FileSpec → Step
    -- the runner's wait, with the node's tasks
    node_until_exit : Step

-- The runtime that is embedded, the files, the configuration that a runner reads for a subcommand
-- and whether the feature `runtime-benchmarks` is on. A message of the code is made an error.
pub record Environment : Type 1 where
  pub Error : Type 0
  pub from_string : String → Error
  pub types : GenesisTypes
  pub wasm_binary : Option Bytes
  pub FileSpec : Type 0
  pub from_json_file : String → Result FileSpec String
  pub configuration : Option Subcommand → Service.Configuration
  pub runtime_benchmarks : Bool

module _ (env : Environment) where
  open env use {Error, FileSpec, configuration, runtime_benchmarks}

  abbrev pub Cli {ℓ} : Type ℓ → Type ℓ
  Cli A = Program (Step FileSpec) Error A

  -- `return Err(message.into())`
  unfoldable pub fail : String → Cli (Unit {0})
  fail message o t = (failed (env.from_string message), t)

  -- `service::new_partial(&config)?`
  abbrev pub open_client : Subcommand → Cli Bool
  open_client sub = within service (Service.new_partial Error (configuration (some sub)))

  -- The body of `sync_run` or `async_run` that opens the client for the command.
  unfoldable pub run_with_client : Subcommand → Cli (Unit {0})
  run_with_client sub = open_client sub >>= λ _. perform fallible (command sub)

  -- `match cmd` of `Subcommand::Benchmark`
  unfoldable pub run_benchmark : BenchmarkCmd → Cli (Unit {0})
  unfolding fail run_with_client
  run_benchmark pallet =
      if runtime_benchmarks
      then perform fallible (command (benchmark pallet))
      else fail "Runtime benchmarking not enabled."
  run_benchmark block = run_with_client (benchmark block)
  run_benchmark storage =
      if runtime_benchmarks
      then run_with_client (benchmark storage)
      else fail "Storage benchmarking requires `--features runtime-benchmarks`."
  run_benchmark overhead = do
    _ ← open_client (benchmark overhead)
    perform fallible inherent_benchmark_data
    perform fallible (command (benchmark overhead))
  run_benchmark extrinsic = do
    _ ← open_client (benchmark extrinsic)
    perform fallible inherent_benchmark_data
    perform fallible (command (benchmark extrinsic))
  run_benchmark machine = perform fallible (command (benchmark machine))

  -- `let chain_spec = cli.load_spec(&cmd.chain)?; cmd.run(chain_spec)`
  abbrev export : Result (ChainSpec FileSpec) String → Cli (Unit {0})
  export (ok spec) = perform fallible (export_spec spec)
  export (err message) = fail message

  -- `create_runner(cmd)?` and the run of a body
  abbrev pub with_runner : Option Subcommand → Cli (Unit {0}) → Cli (Unit {0})
  with_runner sub body = perform fallible (create_runner sub) >> body

  -- The two network backends differ in a type argument of `new_full` alone.
  unfoldable pub run : Option Subcommand → Cli (Unit {0})
  unfolding run_benchmark run_with_client fail
  run (some key) = perform fallible (command key)
  run (some build_spec) = with_runner (some build_spec) (perform fallible (command build_spec))
  run (some (export_chain_spec chain)) =
      export (load_spec env.types env.wasm_binary env.from_json_file chain)
  run (some check_block) = with_runner (some check_block) (run_with_client check_block)
  run (some export_blocks) = with_runner (some export_blocks) (run_with_client export_blocks)
  run (some export_state) = with_runner (some export_state) (run_with_client export_state)
  run (some import_blocks) = with_runner (some import_blocks) (run_with_client import_blocks)
  run (some purge_chain) = with_runner (some purge_chain) (perform fallible (command purge_chain))
  run (some revert) = with_runner (some revert) (run_with_client revert)
  run (some (benchmark cmd)) = with_runner (some (benchmark cmd)) (run_benchmark cmd)
  run (some chain_info) = with_runner (some chain_info) (perform fallible (command chain_info))
  run none = with_runner none (
      within service (Service.new_full Error (configuration none))
      >> perform fallible node_until_exit)
