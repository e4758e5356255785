-- ===== src/Node/Service.antt =====
-- The start of a full node, node/src/service.rs: the calls that it makes, their order and what a
-- failure of each does. The calls of the polkadot-sdk crates are steps; a step keeps of its
-- arguments those that the role, the flags, the node's name and the telemetry endpoints decide.
pub mod Laws
pub mod Tasks
pub mod Observer
use Prim.Native.String.{String}
use paseo_node.Base.{
  ℕ, Bool, true, false, not, Option, none, some, List, [], ◌∷◌, is_empty, if◌then◌else◌,
}
use paseo_node.Node.Effect.{
  Mode, infallible, fallible, required, Program, next, ◌>>=◌, ◌>>◌, return, perform, when,
}

-- What is read of `sc_service::Configuration`.
pub record Configuration : Type 0 where
  pub telemetry_endpoints : Option (List String)
  pub is_authority : Bool
  pub offchain_worker_enabled : Bool
  pub force_authoring : Bool
  pub disable_grandpa : Bool
  pub node_name : String

-- A task given to the task manager. The node ends when an essential task ends.
pub record Task : Type 0 where
  pub essential : Bool
  pub blocking : Bool
  pub name : String
  pub group : Option String

-- `GRANDPA_JUSTIFICATION_PERIOD`
abbrev pub grandpa_justification_period : ℕ
grandpa_justification_period = 512

pub data Step : Type 0 where
  -- `TelemetryWorker::new`, with the size of its buffer
  telemetry_worker : ℕ → Step
  new_wasm_executor : Step
  -- `new_full_parts`, with telemetry or without
  new_full_parts : Bool → Step
  spawn : Task → Step
  longest_chain : Step
  -- the transaction pool's builder, told whether the node is an authority
  transaction_pool : Bool → Step
  -- `sc_consensus_grandpa::block_import`, with the justification period
  grandpa_block_import : ℕ → Bool → Step
  aura_import_queue : Bool → Step
  network_configuration : Step
  -- `client.block_hash(0)` of which the genesis block is expected
  genesis_block_hash : Step
  grandpa_peers_set_config : Step
  warp_sync_provider : Step
  build_network : Step
  -- told whether the node is a validator
  offchain_workers : Bool → Step
  -- `sc_service::spawn_tasks`, which starts the RPC servers
  spawn_tasks : Bool → Step
  proposer_factory : Bool → Step
  aura_slot_duration : Step
  -- `start_aura`, with `force_authoring` and the telemetry
  start_aura : Bool → Bool → Step
  -- `run_grandpa_voter`, with the justification period, the voter's name, whether it is given the
  -- keystore, and the telemetry
  run_grandpa_voter : ℕ → String → Bool → Bool → Step

abbrev pub telemetry_task : Task
telemetry_task = record { essential = false; blocking = false; name = "telemetry"; group = none }

abbrev pub offchain_task : Task
offchain_task = record {
  essential = false;
  blocking = false;
  name = "offchain-workers-runner";
  group = some "offchain-worker";
}

abbrev pub aura_task : Task
aura_task = record {
  essential = true;
  blocking = true;
  name = "aura";
  group = some "block-authoring";
}

abbrev pub grandpa_task : Task
grandpa_task = record { essential = true; blocking = true; name = "grandpa-voter"; group = none }

-- `telemetry_endpoints.filter(|x| !x.is_empty())`
abbrev pub has_endpoints : Option (List String) → Bool
has_endpoints none = false
has_endpoints (some endpoints) = not (is_empty endpoints)

module _ (ServiceError : Type 0) where
  abbrev pub Start {ℓ} : Type ℓ → Type ℓ
  Start A = Program Step ServiceError A

  -- The components that the rest depends on: whether there is telemetry.
  unfoldable pub new_partial : Configuration → Start Bool
  new_partial config = do
    let telemetry = has_endpoints config.telemetry_endpoints
    when telemetry (perform fallible (telemetry_worker 16))
    perform infallible new_wasm_executor
    perform fallible (new_full_parts telemetry)
    when telemetry (perform infallible (spawn telemetry_task))
    perform infallible longest_chain
    perform infallible (transaction_pool config.is_authority)
    perform fallible (grandpa_block_import grandpa_justification_period telemetry)
    perform fallible (aura_import_queue telemetry)
    return telemetry

  -- `if config.offchain_worker.enabled { … }`
  unfoldable pub start_offchain_workers : Configuration → Start (Unit {0})
  start_offchain_workers config = when config.offchain_worker_enabled (
      perform fallible (offchain_workers config.is_authority)
      >> perform infallible (spawn offchain_task))

  -- `if role.is_authority() { … }`
  unfoldable pub start_authoring : Configuration → Bool → Start (Unit {0})
  start_authoring config telemetry = when config.is_authority (
      perform infallible (proposer_factory telemetry)
      >> (perform fallible aura_slot_duration
          >> (perform fallible (start_aura config.force_authoring telemetry)
              >> perform infallible (spawn aura_task))))

  -- `if enable_grandpa { … }`
  unfoldable pub start_grandpa : Configuration → Bool → Start (Unit {0})
  start_grandpa config telemetry = when (not config.disable_grandpa) (
      perform fallible (
        run_grandpa_voter grandpa_justification_period config.node_name config.is_authority
          telemetry)
      >> perform infallible (spawn grandpa_task))

  unfoldable pub new_full : Configuration → Start (Unit {0})
  unfolding new_partial start_offchain_workers start_authoring start_grandpa
  new_full config = do
    telemetry ← new_partial config
    perform infallible network_configuration
    perform required genesis_block_hash
    perform infallible grandpa_peers_set_config
    perform infallible warp_sync_provider
    perform fallible build_network
    start_offchain_workers config
    perform fallible (spawn_tasks telemetry)
    start_authoring config telemetry
    start_grandpa config telemetry
