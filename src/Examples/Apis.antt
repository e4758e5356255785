-- ===== src/Examples/Apis.antt =====
-- A helper that looks names up, and a store with one slot.
use Prim.Native.String.{String}
use mathlib.Core.List.{Memᴰ}
use paseo_node.Base.{◌≡◌, ◌↔◌, refl, true, Option, none, some, [], ◌∷◌, Bytes}
use paseo_node.Base.Outcome.{Outcome, returns}
use paseo_node.Runtime.Apis.{Slots, retrieve_slot, slot_exists, preset, presets}
use paseo_node.Runtime.Apis.Presets.{IsPresetHelper, preset_iff}
use paseo_node.Examples.Genesis.{toy, toy-IsKeyring}

abbrev pub look_up : Option String → (String → Outcome (Option Bytes)) → Outcome (Option Bytes)
look_up none f = returns (some [])
look_up (some id) f = f id

pub look_up-IsPresetHelper : IsPresetHelper toy (λ p. some []) look_up
look_up-IsPresetHelper = record { default = []; of_none = λ f. refl; of_some = λ id f. refl }

-- A slot is its payload, and one is stored under the empty hash.
abbrev pub one_slot : Slots Bytes
one_slot = record { slot_at = slot_at; payload = λ slot. slot }
  where
    slot_at : Bytes → Option Bytes
    slot_at [] = some (7 ∷ [])
    slot_at (_ ∷ _) = none

slot_stored : slot_exists one_slot [] ≡ true
unfolding slot_exists
slot_stored = refl

slot_missing : retrieve_slot one_slot (1 ∷ []) ≡ none
unfolding retrieve_slot
slot_missing = refl

preset_iff_example :
    (answer : Option Bytes) × (preset toy (λ p. some []) look_up (some "nightly") ≡ returns answer)
    × (((b : Bytes) × (answer ≡ some b)) ↔ Memᴰ "nightly" (presets toy (λ p. some [])))
preset_iff_example =
    preset_iff toy (λ p. some []) look_up look_up-IsPresetHelper toy-IsKeyring (λ p. ([], refl))
      "nightly"
