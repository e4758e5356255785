-- ===== src/Node/Command/Offline.antt =====
-- The subcommands that leave the client closed: node/src/command.rs.
use Prim.Native.String.{String}
use paseo_node.Base.{
  ◌≡◌, Bool, true, false, Option, none, some, [], Result, ok, err, inl, inr, All, All-left, All-map,
}
use paseo_node.Node.ChainSpec.{ChainSpec}
use paseo_node.Node.Effect.{Oracle}
use paseo_node.Node.Effect.Laws.{steps}
use paseo_node.Node.Effect.Made.{made_steps}
use paseo_node.Node.Command.{
  pallet, block, storage, overhead, extrinsic, machine, Subcommand, key, build_spec,
  export_chain_spec, check_block, export_blocks, export_state, import_blocks, purge_chain, revert,
  benchmark, chain_info, Step, service, Environment, run,
}
use paseo_node.Node.Command.Laws.{run_plan, run-Follows, export_plan}

-- The runs that need no client, `none` being the node itself.
abbrev pub is_offline : Option Subcommand → Bool
is_offline none = false
is_offline (some key) = true
is_offline (some build_spec) = true
is_offline (some (export_chain_spec _)) = true
is_offline (some purge_chain) = true
is_offline (some (benchmark pallet)) = true
is_offline (some (benchmark machine)) = true
is_offline (some chain_info) = true
is_offline _ = false

-- A step that is not one of `service::new_partial` or `service::new_full`.
abbrev pub IsOutside : {F : Type 0} → Step F → Type 0
IsOutside (service _) = ⊥
IsOutside _ = Unit

module _ (env : Environment) where
  open env use {FileSpec, Error}

  IsOutside-export_plan :
      (r : Result (ChainSpec FileSpec) String) → All (λ p. IsOutside p.1) (export_plan env r)
  IsOutside-export_plan (ok spec) = (tt, tt)
  IsOutside-export_plan (err message) = tt

  IsOutside-run_plan :
      (sub : Option Subcommand)
      → is_offline sub ≡ true
      → All (λ p. IsOutside p.1) (run_plan env sub)
  IsOutside-run_plan none h = cc
  IsOutside-run_plan (some key) h = (tt, tt)
  IsOutside-run_plan (some build_spec) h = (tt, (tt, tt))
  IsOutside-run_plan (some (export_chain_spec chain)) h = IsOutside-export_plan _
  IsOutside-run_plan (some check_block) h = cc
  IsOutside-run_plan (some export_blocks) h = cc
  IsOutside-run_plan (some export_state) h = cc
  IsOutside-run_plan (some import_blocks) h = cc
  IsOutside-run_plan (some purge_chain) h = (tt, (tt, tt))
  IsOutside-run_plan (some revert) h = cc
  IsOutside-run_plan (some (benchmark pallet)) h = (tt, (tt, tt))
  IsOutside-run_plan (some (benchmark block)) h = cc
  IsOutside-run_plan (some (benchmark storage)) h = cc
  IsOutside-run_plan (some (benchmark overhead)) h = cc
  IsOutside-run_plan (some (benchmark extrinsic)) h = cc
  IsOutside-run_plan (some (benchmark machine)) h = (tt, (tt, tt))
  IsOutside-run_plan (some chain_info) h = (tt, (tt, tt))

  -- The subcommands on keys, on specifications, that remove the chain's data, that benchmark pallets
  -- or the machine and that show the chain's information make none of the calls by which the node's
  -- client or service is started, however they end.
  pub run_offline :
      (sub : Option Subcommand) (o : Oracle (Step FileSpec) Error)
      → is_offline sub ≡ true
      → All IsOutside (run env sub o []).1
  unfolding steps
  run_offline sub o h = elim (run-Follows env sub) [
    | inl follows ↦
        let (rest, first) = made_steps follows o in
        All-left IsOutside (run env sub o []).1 rest
          (rw first (All-map IsOutside (λ p. p.1) (run_plan env sub) (IsOutside-run_plan sub h)))
    | inr refused ↦
        let (rest, first) = (refused o).1 in
        All-left IsOutside (run env sub o []).1 rest (rw first (tt, tt))
  ]
