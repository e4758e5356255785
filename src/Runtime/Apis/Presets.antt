-- ===== src/Runtime/Apis/Presets.antt =====
-- The presets of GenesisBuilder in runtime/src/apis.rs, and the slots of SecretSquirrelApi.
use Prim.Native.String.{String}
use mathlib.Core.List.{Memᴰ}
use paseo_node.Base.{◌≡◌, ◌↔◌, refl, ◌∙◌, true, Option, none, some, Bytes, inl, inr}
use paseo_node.Base.Outcome.{Outcome, returns}
use paseo_node.Runtime.Types.{Hash}
use paseo_node.Runtime.Genesis.{GenesisTypes, GenesisPatch, get_preset}
use paseo_node.Runtime.Genesis.Presets.{IsKeyring, get_preset_total}
use paseo_node.Runtime.Pns.{contains_key}
use paseo_node.Runtime.Apis.{
  Slots, payload_of, retrieve_slot, slot_exists, PresetHelper, preset, presets,
}

-- What the helper of frame_support documents: a name is looked up by the runtime's function, and
-- without a name the default configuration is the answer.
pub record IsPresetHelper (T : GenesisTypes) (to_string : GenesisPatch T → Option Bytes)
    (helper : PresetHelper T to_string) : Type 0 where
  pub default : Bytes
  pub of_none : (f : String → Outcome (Option Bytes)) → helper none f ≡ returns (some default)
  pub of_some : (id : String) (f : String → Outcome (Option Bytes)) → helper (some id) f ≡ f id

-- Where the helper of frame_support is as documented, the keyring is the development one and every
-- patch has a text, the API answers each name that its list of presets has with a text, and no
-- other name: a name is answered exactly if it is listed, and no look-up of a name panics.
pub preset_iff :
    (T : GenesisTypes) (to_string : GenesisPatch T → Option Bytes)
    (helper : PresetHelper T to_string)
    → IsPresetHelper T to_string helper
    → IsKeyring T
    → ((p : GenesisPatch T) → (b : Bytes) × (to_string p ≡ some b))
    → (id : String)
    → (answer : Option Bytes) × (preset T to_string helper (some id) ≡ returns answer)
      × (((b : Bytes) × (answer ≡ some b)) ↔ Memᴰ id (presets T to_string))
unfolding preset presets
preset_iff T to_string helper H K written id = elim (get_preset_total T K to_string written id) [
  | inl (b, text, listed) ↦
      (some b, H.of_some id (get_preset T to_string) ∙ text, ((λ _. listed), (λ _. (b, refl))))
  | inr (missing, unlisted) ↦ (
    none,
    H.of_some id (get_preset T to_string) ∙ missing,
    ((λ found. cc), (λ m. absurd (unlisted m))),
  )
]

present :
    {Slot : Type 0} (s : Slots Slot) (slot : Option Slot)
    → (contains_key slot ≡ true) ↔ ((payload : Bytes) × (payload_of s slot ≡ some payload))
present s none = ((λ h. cc), (λ (payload, h). cc))
present s (some slot) = ((λ _. (s.payload slot, refl)), (λ _. refl))

-- A slot exists exactly when its payload can be retrieved.
pub slot_exists_iff :
    {Slot : Type 0} (s : Slots Slot) (slot_hash : Hash)
    → (slot_exists s slot_hash ≡ true)
      ↔ ((payload : Bytes) × (retrieve_slot s slot_hash ≡ some payload))
unfolding slot_exists retrieve_slot
slot_exists_iff s slot_hash = present s (s.slot_at slot_hash)
