-- ===== src/Runtime/Apis.antt =====
-- The runtime APIs of runtime/src/apis.rs on presets and on the slots of SecretSquirrel.
pub mod Types
pub mod Calls
mod ZkPki
mod Payment
mod Trials
pub mod Dispatch
pub mod Authors
pub mod Presets
use Prim.Native.String.{String}
use paseo_node.Base.{Bool, Option, none, some, List, Bytes}
use paseo_node.Base.Outcome.{Outcome}
use paseo_node.Runtime.Types.{Hash}
use paseo_node.Runtime.Pns.{contains_key}
use paseo_node.Runtime.Genesis.{
  GenesisTypes, GenesisPatch, get_preset as genesis_get_preset,
  preset_names as genesis_preset_names,
}

-- `pallet_secret_squirrel::Slots` at one block: the slot that is stored under a hash, of which the
-- payload is read.
pub record Slots (Slot : Type 0) : Type 0 where
  pub slot_at : Hash → Option Slot
  pub payload : Slot → Bytes

abbrev pub payload_of : {Slot : Type 0} → Slots Slot → Option Slot → Option Bytes
payload_of s none = none
payload_of s (some slot) = some (s.payload slot)

module _ {Slot : Type 0} (s : Slots Slot) where
  unfoldable pub retrieve_slot : Hash → Option Bytes
  retrieve_slot slot_hash = payload_of s (s.slot_at slot_hash)

  unfoldable pub slot_exists : Hash → Bool
  slot_exists slot_hash = contains_key (s.slot_at slot_hash)

module _ (T : GenesisTypes) (to_string : GenesisPatch T → Option Bytes) where
  -- The helper `get_preset` of frame_support is given the runtime's look-up.
  abbrev pub PresetHelper : Type 0
  PresetHelper = Option String → (String → Outcome (Option Bytes)) → Outcome (Option Bytes)

  -- `GenesisBuilder::get_preset` and `GenesisBuilder::preset_names`
  unfoldable pub preset : PresetHelper → Option String → Outcome (Option Bytes)
  preset helper id = helper id (genesis_get_preset T to_string)

  unfoldable pub presets : List String
  presets = genesis_preset_names T
