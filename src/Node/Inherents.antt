-- ===== src/Node/Inherents.antt =====
-- The inherent data of blocks: the closures `create_inherent_data_providers` that
-- node/src/service.rs gives to the import queue and to the authoring. Both read the system's
-- clock, which is the argument `now`.
pub mod Laws
use paseo_node.Base.{ℕ, Result, ok, err}
use paseo_node.Runtime.Types.{Hash, Moment}

-- What the closures use of `sc_consensus_aura` and `sp_consensus_aura`. The slot duration at a
-- block is what the runtime of that block answers.
pub record InherentTypes : Type 1 where
  pub Error : Type 0
  pub slot_duration_at : Hash → Result Moment Error
  pub from_timestamp_and_slot_duration : Moment → Moment → ℕ

-- The slot, and the timestamp.
abbrev pub Inherents : Type 0
Inherents = ℕ × Moment

module _ (T : InherentTypes) where
  open T use {Error, slot_duration_at, from_timestamp_and_slot_duration}

  infixl 5 ◌>>=◌
  abbrev ◌>>=◌ {ℓ κ} :
      {A : Type ℓ} {B : Type κ} → Result A Error → (A → Result B Error) → Result B Error
  ok a >>= f = f a
  err e >>= f = err e

  -- The closure of the import queue, for the children of a parent.
  unfoldable pub import_inherents : Hash → Moment → Result Inherents Error
  import_inherents parent_hash now = do
    slot_duration ← slot_duration_at parent_hash
    let slot = from_timestamp_and_slot_duration now slot_duration
    ok (slot, now)

  -- The closure of the authoring, over the slot duration that the node read when it started.
  unfoldable pub authoring_inherents : Moment → Moment → Result Inherents Error
  authoring_inherents slot_duration now =
      let slot = from_timestamp_and_slot_duration now slot_duration in ok (slot, now)

  -- `start_aura`'s slot duration: `sc_consensus_aura::slot_duration`, at the best block, and then
  -- the authoring of a block.
  unfoldable pub author_inherents : Hash → Moment → Result Inherents Error
  unfolding authoring_inherents
  author_inherents best_hash now = do
    slot_duration ← slot_duration_at best_hash
    authoring_inherents slot_duration now
