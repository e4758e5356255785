-- ===== src/Node/Inherents/Laws.antt =====
-- Authoring and import assign the same slot to a time, and the slot has its author:
-- node/src/service.rs with runtime/src/configs/mod.rs.
use paseo_node.Base.{
  ℕ, ◌+◌, ◌*◌, ◌/◌, ◌%◌, ◌≤◌, ◌<◌, ◌≡◌, refl, ap, ◌∙◌, Option, some, List, Bytes, arith, ok, ◌==◌,
  nat_eq, if◌then◌else◌,
}
use paseo_node.Base.Outcome.{returns}
use paseo_node.Runtime.Types.{AccountId, Hash, Moment}
use paseo_node.Runtime.Author.{find_author}
use paseo_node.Runtime.Author.Laws.{aura_payload}
use paseo_node.Runtime.Config.Frame.{aura_config}
use paseo_node.Runtime.Pns.{PnsTypes}
use paseo_node.Runtime.Apis.Types.{ApiTypes}
use paseo_node.Runtime.Apis.Calls.{slot_duration}
use paseo_node.Runtime.Apis.Dispatch.{Runtime, call}
use paseo_node.Runtime.Genesis.{GenesisTypes, GenesisPatch, local_config_genesis}
use paseo_node.Runtime.Genesis.Presets.{IsKeyring}
use paseo_node.Runtime.Genesis.Authors.{finder, local_author}
use paseo_node.Node.Inherents.{InherentTypes, import_inherents, author_inherents}

-- What sp_consensus_aura and pallet_aura document: the slot of a time is the number of whole slot
-- durations in it, the pallet's slot duration is the configured one, and that is twice the
-- timestamp's period. The node's answer at a block is that of the runtime's call on its state.
pub record RunsThisRuntime (I : InherentTypes) {A : ApiTypes} {T : PnsTypes} (R : Runtime A T)
    (state_at : Hash → A.State) (minimum_period_times_two : Moment → Moment) : Type 0 where
  pub slot_of : (now d : Moment) → I.from_timestamp_and_slot_duration now d ≡ now / d
  pub doubles : (m : Moment) → minimum_period_times_two m ≡ m * 2
  pub configured :
      (s : A.State)
      → R.pallets.slot_duration s ≡ (aura_config minimum_period_times_two).slot_duration
  pub answers :
      (block : Hash) (d : Moment) (after : A.State)
      → call R slot_duration (state_at block) ≡ returns (d, after)
      → I.slot_duration_at block ≡ ok d

module _ (T : InherentTypes) {A : ApiTypes} {N : PnsTypes} (runtime : Runtime A N)
    (state_at : Hash → A.State) (double : Moment → Moment)
    (R : RunsThisRuntime T runtime state_at double) where
  asked :
      (block : Hash)
      → call runtime slot_duration (state_at block)
        ≡ returns (runtime.pallets.slot_duration (state_at block), state_at block)
  unfolding call
  asked block = refl

  answer : (block : Hash) → T.slot_duration_at block ≡ ok 6000
  answer block =
      R.answers block _ _ (asked block) ∙ ap ok (R.configured (state_at block) ∙ R.doubles 3000)

  import_lem : (parent : Hash) (now : Moment) → import_inherents T parent now ≡ ok (now / 6000, now)
  unfolding import_inherents
  import_lem parent now = rw (answer parent, R.slot_of now 6000) refl

  author_lem : (best : Hash) (now : Moment) → author_inherents T best now ≡ ok (now / 6000, now)
  unfolding author_inherents
  author_lem best now = rw (answer best, R.slot_of now 6000) refl

  -- Where the node reads the slot duration by the API of this runtime, wherever it started and
  -- whatever the parent is, the author of a block and its importer, whose clock is not behind the
  -- author's and less than a block time ahead, both have inherents, and the importer's slot is the
  -- author's or the next one.
  pub slots_agree :
      (best parent : Hash) (authored imported : Moment)
      → authored ≤ imported
      → imported < authored + 6000
      → (slot later : ℕ) × (author_inherents T best authored ≡ ok (slot, authored))
        × (import_inherents T parent imported ≡ ok (later, imported))
        × (slot ≤ later)
        × (later ≤ slot + 1)
  slots_agree best parent authored imported behind ahead = (
    authored / 6000,
    imported / 6000,
    author_lem best authored,
    import_lem parent imported,
    omega arith,
    omega arith,
  )

  module _ (G : GenesisTypes) (K : IsKeyring G) (engine_id : Bytes) (decode_slot : Bytes → Option ℕ)
      (account_id : G.AuraId → AccountId) where
    -- Where the node reads the slot duration by the API of this runtime, a block of the local
    -- preset's chain that is sealed with the slot of its author's inherents, made at a time `now`,
    -- is one that the runtime finds Alice to have authored if the number of the 6 seconds that the
    -- time lies in is even, and Bob if it is odd.
    pub authored_by :
        (p : GenesisPatch G)
        → local_config_genesis G ≡ returns p
        → (best : Hash) (now : Moment) (slot : ℕ) → author_inherents T best now ≡ ok (slot, now)
        → (digests : List (Bytes × Bytes)) (payload : Bytes)
        → aura_payload (finder G K engine_id decode_slot account_id) digests ≡ some payload
        → decode_slot payload ≡ some slot
        → find_author (finder G K engine_id decode_slot account_id) p.aura_authorities digests
          ≡ some (account_id (if now / 6000 % 2 == 0 then K.alice_aura else K.bob_aura))
    authored_by p made best now slot authored digests payload sealed decoded =
        let same : slot ≡ now / 6000 = ground (arith, author_lem best now) in
        local_author G K engine_id decode_slot account_id p made digests payload slot sealed decoded
        ∙ rw same refl
