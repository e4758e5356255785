-- ===== src/Node/Service/Laws.antt =====
-- Which tasks a node starts, and where its start ends: node/src/service.rs.
use paseo_node.Base.{◌≡◌, ◌∙◌, Bool, not, List, [], ◌∷◌, ◌++◌, ◌⊎◌, inl, inr}
use paseo_node.Node.Effect.{Mode, infallible, fallible, required, done, Oracle, judge, refuses}
use paseo_node.Node.Effect.Laws.{planned, steps, Stops, run_outcome}
use paseo_node.Node.Effect.Made.{as_planned}
use paseo_node.Node.Effect.Follows.{
  Follows, Follows-return, Follows-perform, Follows-bind, Follows-then, Follows-when,
}
use paseo_node.Node.Service

-- The steps of `new_partial`, in order, for an authority or not and with telemetry or without.
abbrev pub partial_plan_for : Bool → Bool → List (Mode × Service.Step)
partial_plan_for is_authority telemetry =
    planned telemetry ((fallible, Service.telemetry_worker 16) ∷ [])
    ++ ((infallible, Service.new_wasm_executor)
        ∷ (fallible, Service.new_full_parts telemetry)
        ∷ (planned telemetry ((infallible, Service.spawn Service.telemetry_task) ∷ [])
            ++ ((infallible, Service.longest_chain)
                ∷ (infallible, Service.transaction_pool is_authority)
                ∷ (fallible, Service.grandpa_block_import 512 telemetry)
                ∷ (fallible, Service.aura_import_queue telemetry)
                ∷ [])))

module _ (config : Service.Configuration) where
  open config use {
    is_authority, offchain_worker_enabled, force_authoring, disable_grandpa, node_name,
  }

  abbrev telemetry : Bool
  telemetry = Service.has_endpoints config.telemetry_endpoints

  abbrev pub partial_plan : List (Mode × Service.Step)
  partial_plan = partial_plan_for is_authority telemetry

  abbrev pub offchain_plan : List (Mode × Service.Step)
  offchain_plan = planned offchain_worker_enabled (
      (fallible, Service.offchain_workers is_authority)
      ∷ (infallible, Service.spawn Service.offchain_task)
      ∷ [])

  abbrev pub authoring_plan : List (Mode × Service.Step)
  authoring_plan = planned is_authority (
      (infallible, Service.proposer_factory telemetry)
      ∷ (fallible, Service.aura_slot_duration)
      ∷ (fallible, Service.start_aura force_authoring telemetry)
      ∷ (infallible, Service.spawn Service.aura_task)
      ∷ [])

  abbrev pub grandpa_plan : List (Mode × Service.Step)
  grandpa_plan = planned (not disable_grandpa) (
      (fallible, Service.run_grandpa_voter 512 node_name is_authority telemetry)
      ∷ (infallible, Service.spawn Service.grandpa_task)
      ∷ [])

  -- The steps after `new_partial`.
  abbrev pub main_plan : List (Mode × Service.Step)
  main_plan =
      (infallible, Service.network_configuration)
      ∷ (required, Service.genesis_block_hash)
      ∷ (infallible, Service.grandpa_peers_set_config)
      ∷ (infallible, Service.warp_sync_provider)
      ∷ (fallible, Service.build_network)
      ∷ (offchain_plan
          ++ ((fallible, Service.spawn_tasks telemetry) ∷ (authoring_plan ++ grandpa_plan)))

  -- The steps of a start that nothing refuses, in order.
  abbrev pub plan : List (Mode × Service.Step)
  plan = partial_plan ++ main_plan

  module _ {E : Type 0} where
    pub new_partial-Follows : Follows (Service.new_partial E config) partial_plan telemetry
    unfolding Service.new_partial
    new_partial-Follows = Follows-then (Follows-when _ (Follows-perform _ _)) (
        Follows-then (Follows-perform _ _) (
          Follows-then (Follows-perform _ _) (
            Follows-then (Follows-when _ (Follows-perform _ _)) (
              Follows-then (Follows-perform _ _) (
                Follows-then (Follows-perform _ _) (
                  Follows-then (Follows-perform _ _)
                    (Follows-then (Follows-perform _ _) (Follows-return _))))))))

    offchain-Follows : Follows (Service.start_offchain_workers E config) offchain_plan tt
    unfolding Service.start_offchain_workers
    offchain-Follows = Follows-when _ (Follows-then (Follows-perform _ _) (Follows-perform _ _))

    authoring-Follows : Follows (Service.start_authoring E config telemetry) authoring_plan tt
    unfolding Service.start_authoring
    authoring-Follows = Follows-when _ (
        Follows-then (Follows-perform _ _) (
          Follows-then (Follows-perform _ _)
            (Follows-then (Follows-perform _ _) (Follows-perform _ _))))

    grandpa-Follows : Follows (Service.start_grandpa E config telemetry) grandpa_plan tt
    unfolding Service.start_grandpa
    grandpa-Follows = Follows-when _ (Follows-then (Follows-perform _ _) (Follows-perform _ _))

    pub new_full-Follows : Follows (Service.new_full E config) plan tt
    unfolding Service.new_full
    new_full-Follows = Follows-bind _ new_partial-Follows (
        Follows-then (Follows-perform _ _) (
          Follows-then (Follows-perform _ _) (
            Follows-then (Follows-perform _ _) (
              Follows-then (Follows-perform _ _) (
                Follows-then (Follows-perform _ _) (
                  Follows-then offchain-Follows (
                    Follows-then (Follows-perform _ _)
                      (Follows-then authoring-Follows grandpa-Follows))))))))

    -- Where and how a start ended that did not make all of its steps.
    pub record Ended (o : Oracle Service.Step E) : Type 0 where
      pub stop : Stops plan o []
      pub result :
          Service.new_full E config o []
          ≡ (judge stop.mode (refuses stop.error), steps stop.before ++ (stop.at ∷ []))

    -- A start makes all of the planned steps in their order and is done, or it ends at a planned
    -- step that was refused and that is not infallible: it has made the steps before it, and it
    -- returns the error or panics by the step's mode.
    pub new_full_outcome :
        (o : Oracle Service.Step E)
        → (Service.new_full E config o [] ≡ (done tt, steps plan)) ⊎ Ended o
    new_full_outcome o = elim (run_outcome plan o []) [
      | inl all ↦ inl (as_planned new_full-Follows o ∙ all)
      | inr stop ↦ inr record { stop = stop; result = as_planned new_full-Follows o ∙ stop.result }
    ]
