-- ===== src/Node/Service/Observer.antt =====
-- The steps of a node that is no authority, and the one step that can panic:
-- node/src/service.rs.
use paseo_node.Base.{
  ◌≡◌, refl, sym, ap, ◌∙◌, Bool, true, false, not, List, [], ◌∷◌, ◌++◌, inl, inr, All, All-append,
  All-at,
}
use paseo_node.Node.Effect.{Mode, infallible, fallible, required, panicked, Oracle, judge, refuses}
use paseo_node.Node.Effect.Laws.{steps, All-planned}
use paseo_node.Node.Service
use paseo_node.Node.Service.Laws.{
  partial_plan_for, partial_plan, offchain_plan, authoring_plan, grandpa_plan, main_plan, plan,
  new_full_outcome,
}

-- A property that the steps of each block have is one of all the steps.
record OfBlocks (config : Service.Configuration) (P : Mode × Service.Step → Type 0) : Type 0 where
  of_partial : All P (partial_plan config)
  of_network : P (infallible, Service.network_configuration)
  of_genesis : P (required, Service.genesis_block_hash)
  of_grandpa_peers : P (infallible, Service.grandpa_peers_set_config)
  of_warp_sync : P (infallible, Service.warp_sync_provider)
  of_build_network : P (fallible, Service.build_network)
  of_offchain : All P (offchain_plan config)
  of_spawn_tasks :
      P (fallible, Service.spawn_tasks (Service.has_endpoints config.telemetry_endpoints))
  of_authoring : All P (authoring_plan config)
  of_grandpa : All P (grandpa_plan config)

of_plan :
    (config : Service.Configuration) (P : Mode × Service.Step → Type 0)
    → OfBlocks config P
    → All P (plan config)
of_plan config P b = All-append P (partial_plan config) (main_plan config) b.of_partial (
  b.of_network,
  (
    b.of_genesis,
    (
      b.of_grandpa_peers,
      (
        b.of_warp_sync,
        (
          b.of_build_network,
          All-append P (offchain_plan config) _ b.of_offchain (
            b.of_spawn_tasks,
            All-append P (authoring_plan config) _ b.of_authoring b.of_grandpa,
          ),
        ),
      ),
    ),
  ),
)

-- The steps that a node which is no authority makes: it does not propose blocks, and the Grandpa
-- voter, the transaction pool and the offchain workers are told that it is none.
abbrev pub IsObserving : Service.Step → Type 0
IsObserving (Service.transaction_pool authority) = authority ≡ false
IsObserving (Service.offchain_workers validator) = validator ≡ false
IsObserving (Service.proposer_factory _) = ⊥
IsObserving Service.aura_slot_duration = ⊥
IsObserving (Service.start_aura _ _) = ⊥
IsObserving (Service.run_grandpa_voter _ _ keystore _) = keystore ≡ false
IsObserving _ = Unit

-- The genesis block's hash is the only step that panics when it is refused.
abbrev OnlyGenesis : Mode × Service.Step → Type 0
OnlyGenesis (required, step) = step ≡ Service.genesis_block_hash
OnlyGenesis (infallible, _) = Unit
OnlyGenesis (fallible, _) = Unit

genesis_partial :
    (is_authority telemetry : Bool) → All OnlyGenesis (partial_plan_for is_authority telemetry)
genesis_partial is_authority true = (tt, (tt, (tt, (tt, (tt, (tt, (tt, (tt, tt))))))))
genesis_partial is_authority false = (tt, (tt, (tt, (tt, (tt, (tt, tt))))))

genesis_plan : (config : Service.Configuration) → All OnlyGenesis (plan config)
genesis_plan config = of_plan config OnlyGenesis record {
  of_partial = genesis_partial config.is_authority _;
  of_network = tt;
  of_genesis = refl;
  of_grandpa_peers = tt;
  of_warp_sync = tt;
  of_build_network = tt;
  of_offchain = All-planned _ config.offchain_worker_enabled _ (λ _. (tt, (tt, tt)));
  of_spawn_tasks = tt;
  of_authoring = All-planned _ config.is_authority _ (λ _. (tt, (tt, (tt, (tt, tt)))));
  of_grandpa = All-planned _ (not config.disable_grandpa) _ (λ _. (tt, (tt, tt)));
}

required_of_panic :
    {E : Type 0} (mode : Mode) (error : E) → judge mode (refuses error) ≡ panicked → mode ≡ required
required_of_panic infallible error h = cc
required_of_panic fallible error h = cc
required_of_panic required error h = refl

genesis_of_required :
    (mode : Mode) (step : Service.Step)
    → mode ≡ required
    → OnlyGenesis (mode, step)
    → step ≡ Service.genesis_block_hash
genesis_of_required infallible step h g = cc
genesis_of_required fallible step h g = cc
genesis_of_required required step h g = g

-- A start that panics has asked for the genesis block's hash as its last step, and was refused it.
pub new_full_panics :
    {E : Type 0} (config : Service.Configuration) (o : Oracle Service.Step E)
    → (Service.new_full E config o []).0 ≡ panicked
    → (before : List Service.Step) × (error : E) × ((Service.new_full E config o []).1
        ≡ before ++ (Service.genesis_block_hash ∷ []))
      × (o before Service.genesis_block_hash ≡ refuses error)
new_full_panics {E} config o h = elim (new_full_outcome config o) [
  | inl all ↦ cc
  | inr ended ↦
      let stop = ended.stop in
      let last : stop.at ≡ Service.genesis_block_hash =
        genesis_of_required stop.mode stop.at
          (required_of_panic stop.mode stop.error (sym (ap (λ r. r.0) ended.result) ∙ h))
          (All-at OnlyGenesis stop.before (stop.mode, stop.at) stop.after
            (rw (← stop.split) (genesis_plan config))) in
      (
        steps ended.stop.before,
        ended.stop.error,
        rw (← last) (ap (λ r. r.1) ended.result),
        rw (← last) ended.stop.refused,
      )
]
