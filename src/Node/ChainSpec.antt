-- ===== src/Node/ChainSpec.antt =====
-- The chain specifications of node/src/chain_spec.rs, and `load_spec` of node/src/command.rs.
pub mod Laws
pub mod Chain
use Prim.Native.String.{String}
use text.Mathlib.Text.{◌==◌ as str_eq}
use paseo_node.Base.{Bool, ◌||◌, Option, none, some, Bytes, Result, ok, err, map_ok, if◌then◌else◌}
use paseo_node.Runtime.Genesis.{GenesisTypes}

pub data ChainType : Type 0 where
  development local : ChainType

-- What the builder of `sc_service::GenericChainSpec` is given.
pub record BuiltSpec : Type 0 where
  pub code : Bytes
  pub name : String
  pub id : String
  pub chain_type : ChainType
  pub preset_name : String

-- A specification is built here or read from a file.
pub data ChainSpec (FileSpec : Type 0) : Type 0 where
  built : BuiltSpec → ChainSpec FileSpec
  from_file : FileSpec → ChainSpec FileSpec

-- `Option::ok_or_else`
abbrev pub ok_or {ℓ} : {A : Type ℓ} → String → Option A → Result A String
ok_or message none = err message
ok_or message (some a) = ok a

-- `wasm_binary` is the runtime that the build embeds, where it made one.
module _ (T : GenesisTypes) (wasm_binary : Option Bytes) where
  unfoldable pub development_chain_spec : Result BuiltSpec String
  development_chain_spec =
      map_ok
        (λ code. record {
          code = code;
          name = "Development";
          id = "dev";
          chain_type = development;
          preset_name = T.dev_runtime_preset;
        })
        (ok_or "Development wasm not available" wasm_binary)

  unfoldable pub local_chain_spec : Result BuiltSpec String
  local_chain_spec =
      map_ok
        (λ code. record {
          code = code;
          name = "Local Testnet";
          id = "local_testnet";
          chain_type = local;
          preset_name = T.local_testnet_runtime_preset;
        })
        (ok_or "Development wasm not available" wasm_binary)

  module _ {FileSpec : Type 0} (from_json_file : String → Result FileSpec String) where
    unfoldable pub load_spec : String → Result (ChainSpec FileSpec) String
    unfolding development_chain_spec local_chain_spec
    load_spec id =
        if str_eq id "dev"
        then map_ok built development_chain_spec
        else if str_eq id "" || str_eq id "local"
        then map_ok built local_chain_spec
        else map_ok from_file (from_json_file id)
