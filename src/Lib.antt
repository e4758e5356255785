-- ===== src/Lib.antt =====
-- The Paseo solochain node: its runtime's queries, adapters and genesis, and the node's RPC server,
-- benchmark extrinsics, chain specifications, command line and start-up.
--
-- The program has two crates. The runtime (runtime/src) puts the pallets of polkadot-sdk together
-- with those of PNS (names and their market), ZK-PKI and SecretSquirrel: it configures them, joins
-- them by small adapters, answers runtime API calls and makes the genesis. The node (node/src)
-- starts a client for that runtime, serves its JSON-RPC and runs the subcommands. The node reaches
-- the runtime by runtime API calls at a block's hash only, and by the presets that its chain
-- specifications name.
--
-- Base: shared notation, lists measured by native numbers, outcomes with panics, results, words.
-- Runtime: runtime/src.
--   Types, Constants, Version: the primitive types, times, units and VERSION of runtime/src/lib.rs
--     and the parameter_types of runtime/src/configs/mod.rs.
--   Blocks: the types of blocks, transactions and session keys, runtime/src/lib.rs.
--   Pallets: the pallets of the runtime and their indices, runtime/src/lib.rs.
--   Author: AuraAccountFinder::find_author, runtime/src/configs/mod.rs.
--   Proxy: PalletProxyValidator::has_proxy, runtime/src/proxy_validator.rs, and the filter of
--     ProxyType.
--   Adapters: EnsureRootAsAccountId and the PNS adapters, runtime/src/configs/mod.rs. The pallets'
--     functions are the fields of a record over an abstract state.
--   Pns: the PnsStorageApi of runtime/src/apis.rs over a snapshot of the storage: each storage map
--     is a function into an option, the timestamp a number.
--   Genesis: runtime/src/genesis_config_presets.rs. The keyring and the key types are parameters;
--     unwrap and expect panic, which is an outcome.
--     Genesis.Authors finds the author of a slot in the genesis, Genesis.Rewards the author's
--     account, and Genesis.Listed the patch of a name.
--   Config: the impl Config blocks of runtime/src/configs/mod.rs as records: Config.Frame those of
--     polkadot-sdk, Config.Pns those of PNS, Config.Pki those of ZK-PKI and SecretSquirrel.
--   Features: the features of runtime/Cargo.toml, the guard of runtime/src/lib.rs on them, and the
--     verifiers of runtime/src/configs/mod.rs that a feature brings. Features.Wasm: runtime/build.rs.
--   Benchmarks: the list of runtime/src/benchmarks.rs and the loop over it.
--   Apis: GenesisBuilder's presets and SecretSquirrelApi, runtime/src/apis.rs. Apis.Types has what
--     the runtime APIs forward to, where what runs or makes a block may panic, Apis.Calls every call with the type of its answer, and
--     Apis.Dispatch what a call does to the chain's state, with the handlers of ZK-PKI, of transaction
--     payment and of the benchmarks and trials in Apis.ZkPki, Apis.Payment and Apis.Trials. Apis.Authors is
--     about Aura's authorities.
-- Node: node/src.
--   PnsRpc: node/src/pns_rpc.rs. A method runs over a world that counts the reads of
--     client.info(), whose answer may change between reads, and logs the runtime calls. PnsRpc.Chain
--     plugs the queries of Runtime.Pns in as the runtime, and PnsRpc.Answers the calls of
--     Runtime.Apis.Dispatch. PnsRpc.Sessions runs requests one after another.
--     PnsRpc.Threads has the methods again as programs that stop at each access to the client, and
--     Threads.System interleaves their accesses with each other and with changes of the best block.
--   Benchmarking: node/src/benchmarking.rs. Each read of client.chain_info() may answer
--     differently.
--   Effect: programs over an oracle that accepts or refuses each call of the SDK. A refusal returns
--     an error at a `?`, panics at an `expect`, and is passed over at a call that cannot fail.
--     Effect.Follows reads the list of the calls off a program.
--   Service: new_partial and new_full of node/src/service.rs as such programs.
--   Inherents: the closures of node/src/service.rs that make the inherent data of a block.
--   Rpc: create_full of node/src/rpc.rs over a parameter for jsonrpsee's modules. Rpc.Namespace
--     finds the methods of node/src/pns_rpc.rs in it.
--   ChainSpec: node/src/chain_spec.rs and load_spec of node/src/command.rs. ChainSpec.Chain asks the
--     runtime for the presets that they name.
--   Command: run of node/src/command.rs, with the subcommands of node/src/cli.rs, and its texts.
--   Entry: main of node/src/main.rs and of node/build.rs.
-- Examples: runs at concrete data, and the theorems at inputs that meet their hypotheses.
--
-- Bounds. Integers are natural numbers. Where the source casts, the cast is written out (as_u16,
-- as_u32, as_u64, as_usize: `% 2 ^ w`, with the runtime's pointer of 32 bits), and saturating_add
-- stops at 2 ^ 64 - 1. checked_next_power_of_two tries the powers of 2 from 1 in 32 tries, which is every
-- power that a u32 holds, so running out of tries is the overflow of the source.
--
-- Not modelled: the bodies of polkadot-sdk, PNS, ZK-PKI and SecretSquirrel, which are not in the
-- repository (their functions are parameters); the weight functions and the types of the runtime
-- itself that the impl Config blocks name; the dispatch, the codec and the metadata that
-- construct_runtime and impl_runtime_apis generate; the parsing of the command line by clap; how
-- jsonrpsee and tokio schedule the requests (any order is allowed); the integration tests, which
-- test pallets that are not in the repository.
pub mod Base
pub mod Runtime
pub mod Node
mod Examples
