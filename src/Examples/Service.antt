-- ===== src/Examples/Service.antt =====
-- Starts of an authority and of an observer.
use paseo_node.Base.{◌≡◌, refl, true, false, some, none, List, [], ◌∷◌, ◌++◌, ◌⊎◌}
use paseo_node.Node.Effect.{done, failed, panicked, accepts, refuses, Oracle, perform}
use paseo_node.Node.Effect.Laws.{steps}
use paseo_node.Node.Service
use paseo_node.Node.Service.Laws.{plan, Ended, new_full_outcome}
use paseo_node.Node.Service.Observer.{new_full_panics}
use paseo_node.Node.Service.Tasks.{spawned, expected_tasks, new_full_tasks}

abbrev authority : Service.Configuration
authority = record {
  telemetry_endpoints = some ("wss://telemetry.example/submit" ∷ []);
  is_authority = true;
  offchain_worker_enabled = true;
  force_authoring = false;
  disable_grandpa = false;
  node_name = "alice";
}

abbrev pub observer : Service.Configuration
observer = record {
  telemetry_endpoints = none;
  is_authority = false;
  offchain_worker_enabled = true;
  force_authoring = true;
  disable_grandpa = false;
  node_name = "charlie";
}

data StartError : Type 0 where
  network_error no_genesis : StartError

abbrev all_well : Oracle Service.Step StartError
all_well before step = accepts

abbrev no_network : Oracle Service.Step StartError
no_network before Service.build_network = refuses network_error
no_network before _ = accepts

abbrev empty_chain : Oracle Service.Step StartError
empty_chain before Service.genesis_block_hash = refuses no_genesis
empty_chain before _ = accepts

authority_tasks :
    spawned (Service.new_full StartError authority all_well []).1
    ≡ Service.telemetry_task ∷ Service.offchain_task ∷ Service.aura_task ∷ Service.grandpa_task ∷ []
unfolding Service.new_full Service.new_partial Service.start_offchain_workers
    Service.start_authoring Service.start_grandpa spawned perform
authority_tasks = refl

observer_fails : (Service.new_full StartError observer no_network []).0 ≡ failed network_error
unfolding Service.new_full Service.new_partial Service.start_offchain_workers
    Service.start_authoring Service.start_grandpa perform
observer_fails = refl

authority_starts : (Service.new_full StartError authority all_well []).0 ≡ done tt
unfolding Service.new_full Service.new_partial Service.start_offchain_workers
    Service.start_authoring Service.start_grandpa perform
authority_starts = refl

empty_chain_panics : (Service.new_full StartError observer empty_chain []).0 ≡ panicked
unfolding Service.new_full Service.new_partial Service.start_offchain_workers
    Service.start_authoring Service.start_grandpa perform
empty_chain_panics = refl

new_full_outcome_example :
    (Service.new_full StartError observer no_network [] ≡ (done tt, steps (plan observer)))
    ⊎ Ended observer no_network
new_full_outcome_example = new_full_outcome observer no_network

new_full_tasks_example :
    spawned (Service.new_full StartError authority all_well []).1 ≡ expected_tasks authority
new_full_tasks_example = new_full_tasks authority all_well authority_starts

new_full_panics_example :
    (before : List Service.Step) × (error : StartError) × ((Service.new_full StartError observer
        empty_chain []).1
      ≡ before ++ (Service.genesis_block_hash ∷ []))
    × (empty_chain before Service.genesis_block_hash ≡ refuses error)
new_full_panics_example = new_full_panics observer empty_chain empty_chain_panics
