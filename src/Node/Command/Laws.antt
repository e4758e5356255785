-- ===== src/Node/Command/Laws.antt =====
-- The calls that a subcommand makes: node/src/command.rs.
use Prim.Native.String.{String}
use mathlib.Core.List.{append-nil}
use paseo_node.Base.{
  ◌≡◌, ◌≢◌, refl, ◌∙◌, Option, none, some, List, [], ◌∷◌, ◌++◌, Result, ok, err, ◌⊎◌, inl, inr,
  Result-cases, Bool-cases,
}
use paseo_node.Node.ChainSpec.{ChainSpec, load_spec}
use paseo_node.Node.Effect.{
  Mode, fallible, done, Verdict, accepts, refuses, judge, Oracle, next, ◌>>=◌, ◌>>◌, perform,
}
use paseo_node.Node.Effect.Laws.{steps}
use paseo_node.Node.Effect.Follows.{Follows, Follows-bind, Follows-then, Follows-perform}
use paseo_node.Node.Effect.Made.{done_steps}
use paseo_node.Node.Effect.Within.{taken, Follows-within}
use paseo_node.Node.Service.Laws.{partial_plan, plan, new_partial-Follows, new_full-Follows}
use paseo_node.Node.Command.{
  BenchmarkCmd, pallet, block, storage, overhead, extrinsic, machine, Subcommand, key, build_spec,
  export_chain_spec, check_block, export_blocks, export_state, import_blocks, purge_chain, revert,
  benchmark, chain_info, Step, create_runner, service, inherent_benchmark_data, command,
  export_spec, node_until_exit, Environment, Cli, run, run_benchmark, run_with_client, fail,
  with_runner, open_client,
}

module _ (env : Environment) where
  open env use {FileSpec, Error, configuration, runtime_benchmarks}

  abbrev Plan : Type 0
  Plan = List (Mode × Step FileSpec)

  -- The steps of a client's opening.
  abbrev client_plan : Subcommand → Plan
  client_plan sub = taken service (partial_plan (configuration (some sub)))

  abbrev command_plan : Subcommand → Plan
  command_plan sub = (fallible, command sub) ∷ []

  abbrev with_client_plan : Subcommand → Plan
  with_client_plan sub = client_plan sub ++ command_plan sub

  abbrev with_inherents_plan : Subcommand → Plan
  with_inherents_plan sub =
      client_plan sub ++ ((fallible, inherent_benchmark_data) ∷ command_plan sub)

  run_with_client-Follows :
      (sub : Subcommand) → Follows (run_with_client env sub) (with_client_plan sub) tt
  unfolding run_with_client
  run_with_client-Follows sub =
      Follows-bind _ (Follows-within service (new_partial-Follows _)) (Follows-perform _ _)

  run_with_inherents-Follows :
      (sub : Subcommand)
      → Follows
          (open_client env sub >>= λ _.
            perform fallible inherent_benchmark_data >> perform fallible (command sub))
          (with_inherents_plan sub)
          tt
  run_with_inherents-Follows sub =
      Follows-bind _ (Follows-within service (new_partial-Follows _))
        (Follows-then (Follows-perform _ _) (Follows-perform _ _))

  -- A plan behind a runner.
  abbrev runner_plan : Option Subcommand → Plan → Plan
  runner_plan sub plan = (fallible, create_runner sub) ∷ plan

  abbrev pub export_plan : Result (ChainSpec FileSpec) String → Plan
  export_plan (ok spec) = (fallible, export_spec spec) ∷ []
  export_plan (err message) = []

  -- The plan of a run with every feature, and a specification that loads.
  abbrev pub run_plan : Option Subcommand → Plan
  run_plan (some key) = command_plan key
  run_plan (some build_spec) = runner_plan (some build_spec) (command_plan build_spec)
  run_plan (some (export_chain_spec chain)) =
      export_plan (load_spec env.types env.wasm_binary env.from_json_file chain)
  run_plan (some check_block) = runner_plan (some check_block) (with_client_plan check_block)
  run_plan (some export_blocks) = runner_plan (some export_blocks) (with_client_plan export_blocks)
  run_plan (some export_state) = runner_plan (some export_state) (with_client_plan export_state)
  run_plan (some import_blocks) = runner_plan (some import_blocks) (with_client_plan import_blocks)
  run_plan (some purge_chain) = runner_plan (some purge_chain) (command_plan purge_chain)
  run_plan (some revert) = runner_plan (some revert) (with_client_plan revert)
  run_plan (some (benchmark pallet)) =
      runner_plan (some (benchmark pallet)) (command_plan (benchmark pallet))
  run_plan (some (benchmark block)) =
      runner_plan (some (benchmark block)) (with_client_plan (benchmark block))
  run_plan (some (benchmark storage)) =
      runner_plan (some (benchmark storage)) (with_client_plan (benchmark storage))
  run_plan (some (benchmark overhead)) =
      runner_plan (some (benchmark overhead)) (with_inherents_plan (benchmark overhead))
  run_plan (some (benchmark extrinsic)) =
      runner_plan (some (benchmark extrinsic)) (with_inherents_plan (benchmark extrinsic))
  run_plan (some (benchmark machine)) =
      runner_plan (some (benchmark machine)) (command_plan (benchmark machine))
  run_plan (some chain_info) = runner_plan (some chain_info) (command_plan chain_info)
  run_plan none =
      runner_plan none
        (taken service (plan (configuration none)) ++ ((fallible, node_until_exit) ∷ []))

  -- A run that ends with a message: it is not done, and has at most made its runner.
  abbrev pub IsRefused : Option Subcommand → Cli env (Unit {0}) → Type 0
  IsRefused sub m =
      (o : Oracle (Step FileSpec) Error)
      → ((m o []).0 ≢ done tt)
        × ((rest : List (Step FileSpec)) × ((m o []).1 ++ rest ≡ create_runner sub ∷ []))

  fail-IsRefused : (sub : Option Subcommand) (message : String) → IsRefused sub (fail env message)
  unfolding fail
  fail-IsRefused sub message o = (cc, (_, refl))

  refused_after :
      (sub : Option Subcommand) (message : String) (o : Oracle (Step FileSpec) Error)
      (v : Verdict Error)
      → ((next o (judge fallible v, create_runner sub ∷ []) (λ _. fail env message)).0 ≢ done tt)
        × ((next o (judge fallible v, create_runner sub ∷ []) (λ _. fail env message)).1
            ≡ create_runner sub ∷ [])
  unfolding fail
  refused_after sub message o accepts = (cc, refl)
  refused_after sub message o (refuses e) = (cc, refl)

  with_runner-IsRefused :
      (sub : Option Subcommand) (message : String)
      → IsRefused sub (with_runner env sub (fail env message))
  unfolding perform
  with_runner-IsRefused sub message o =
      let (not_done, made) = refused_after sub message o (o [] (create_runner sub)) in
      (not_done, ([], append-nil _ ∙ made))

  behind_runner :
      (sub : Option Subcommand) {body : Cli env (Unit {0})} {plan : Plan}
      → Follows body plan tt
      → Follows (with_runner env sub body) (runner_plan sub plan) tt
  behind_runner sub h = Follows-then (Follows-perform _ _) h

  run_benchmark-Follows :
      (cmd : BenchmarkCmd)
      → Follows (run env (some (benchmark cmd))) (run_plan (some (benchmark cmd))) tt
        ⊎ IsRefused (some (benchmark cmd)) (run env (some (benchmark cmd)))
  unfolding run run_benchmark
  run_benchmark-Follows pallet = elim (Bool-cases runtime_benchmarks) [
    | inl on ↦ inl (behind_runner _ (rw on (Follows-perform _ _)))
    | inr off ↦ inr (rw off (with_runner-IsRefused (some (benchmark pallet)) _))
  ]
  run_benchmark-Follows block = inl (behind_runner _ (run_with_client-Follows _))
  run_benchmark-Follows storage = elim (Bool-cases runtime_benchmarks) [
    | inl on ↦ inl (behind_runner _ (rw on (run_with_client-Follows _)))
    | inr off ↦ inr (rw off (with_runner-IsRefused (some (benchmark storage)) _))
  ]
  run_benchmark-Follows overhead = inl (behind_runner _ (run_with_inherents-Follows _))
  run_benchmark-Follows extrinsic = inl (behind_runner _ (run_with_inherents-Follows _))
  run_benchmark-Follows machine = inl (behind_runner _ (Follows-perform _ _))

  -- The run without a subcommand.
  pub node-Follows : Follows (run env none) (run_plan none) tt
  unfolding run
  node-Follows =
      behind_runner _
        (Follows-then (Follows-within service (new_full-Follows _)) (Follows-perform _ _))

  pub run-Follows :
      (sub : Option Subcommand)
      → Follows (run env sub) (run_plan sub) tt ⊎ IsRefused sub (run env sub)
  unfolding run
  run-Follows (some key) = inl (Follows-perform _ _)
  run-Follows (some build_spec) = inl (behind_runner _ (Follows-perform _ _))
  run-Follows (some (export_chain_spec chain)) =
      elim (Result-cases (load_spec env.types env.wasm_binary env.from_json_file chain)) [
        | inl (spec, loaded) ↦ inl (rw loaded (Follows-perform _ _))
        | inr (message, not_loaded) ↦
            inr (rw not_loaded (fail-IsRefused (some (export_chain_spec chain)) message))
      ]
  run-Follows (some check_block) = inl (behind_runner _ (run_with_client-Follows _))
  run-Follows (some export_blocks) = inl (behind_runner _ (run_with_client-Follows _))
  run-Follows (some export_state) = inl (behind_runner _ (run_with_client-Follows _))
  run-Follows (some import_blocks) = inl (behind_runner _ (run_with_client-Follows _))
  run-Follows (some purge_chain) = inl (behind_runner _ (Follows-perform _ _))
  run-Follows (some revert) = inl (behind_runner _ (run_with_client-Follows _))
  run-Follows (some (benchmark cmd)) = run_benchmark-Follows cmd
  run-Follows (some chain_info) = inl (behind_runner _ (Follows-perform _ _))
  run-Follows none = inl node-Follows

  -- A run that is done has made exactly the steps of its plan: the runner for every subcommand but
  -- `key` and `export-chain-spec`, then the whole opening of the client, or of the node, where the
  -- subcommand needs it, and the command itself last.
  pub run-steps :
      (sub : Option Subcommand) (o : Oracle (Step FileSpec) Error)
      → (run env sub o []).0 ≡ done tt
      → (run env sub o []).1 ≡ steps (run_plan sub)
  run-steps sub o finished = elim (run-Follows sub) [
    | inl h ↦ done_steps h o finished
    | inr refused ↦ absurd ((refused o).0 finished)
  ]
