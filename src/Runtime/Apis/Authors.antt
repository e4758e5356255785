-- ===== src/Runtime/Apis/Authors.antt =====
-- The authorities that AuraApi of runtime/src/apis.rs answers, and the author that
-- `AuraAccountFinder` of runtime/src/configs/mod.rs finds.
use paseo_node.Base.{ℕ, ◌%◌, ◌≤◌, ◌≡◌, refl, ◌∙◌, Option, some, List, Bytes, length, get_elem?}
use paseo_node.Base.Outcome.{returns}
use paseo_node.Base.Try.{◌>>=◌}
use paseo_node.Runtime.Types.{AccountId}
use paseo_node.Runtime.Constants.{max_authorities}
use paseo_node.Runtime.Author.{AuraTypes, find_author}
use paseo_node.Runtime.Author.Laws.{aura_payload, find_author-eq-scheduled}
use paseo_node.Runtime.Pns.{PnsTypes}
use paseo_node.Runtime.Apis.Types.{ApiTypes}
use paseo_node.Runtime.Apis.Calls.{authorities}
use paseo_node.Runtime.Apis.Dispatch.{Runtime, call}

module _ {A : ApiTypes} {N : PnsTypes} (R : Runtime A N) (engine_id : Bytes)
    (decode_slot : Bytes → Option ℕ) (account_id : A.AuraId → AccountId) where
  -- The finder over the authorities' type of the API.
  abbrev pub api_finder : AuraTypes
  api_finder = record {
    AuraId = A.AuraId;
    engine_id = engine_id;
    decode_slot = decode_slot;
    account_id = account_id;
  }

  answered :
      (s : A.State) (ids : List A.AuraId) (after : A.State)
      → call R authorities s ≡ returns (ids, after)
      → R.pallets.aura_authorities s ≡ ids
  unfolding call
  answered s ids after e = cc

  -- The author of a block that Aura on the node checks, by the authorities that the runtime's API
  -- answers in a state, is the one whose account the runtime finds in that state for the block's
  -- digests. Aura takes the authority at the slot's number, counted round the list, at most 32
  -- authorities are stored, and the block's first Aura digest is its slot.
  pub find_author-call :
      (slot_author : List A.AuraId → ℕ → Option A.AuraId)
      → ((ids : List A.AuraId) (slot : ℕ)
          → slot_author ids slot ≡ get_elem? ids (slot % length ids))
      → (s : A.State) (ids : List A.AuraId) (after : A.State)
      → call R authorities s ≡ returns (ids, after)
      → length ids ≤ max_authorities
      → (digests : List (Bytes × Bytes)) (payload : Bytes) (slot : ℕ)
      → aura_payload api_finder digests ≡ some payload
      → decode_slot payload ≡ some slot
      → find_author api_finder (R.pallets.aura_authorities s) digests
        ≡ (slot_author ids slot >>= λ id. some (account_id id))
  find_author-call slot_author takes s ids after asked few digests payload slot sealed decoded =
      rw (answered s ids after asked) (
        find_author-eq-scheduled api_finder ids digests few
        ∙ rw (sealed, decoded, takes ids slot) refl)
