-- ===== src/Examples/Author.antt =====
-- Three authorities and the digests of a block.
use paseo_node.Base.{
  ℕ, ◌+◌, ◌<◌, ◌≡◌, refl, Option, none, some, List, [], ◌∷◌, Bytes, codes, replicate, arith,
}
use paseo_node.Base.Try.{◌>>=◌}
use paseo_node.Runtime.Author.{AuraTypes, author_at, find_author}
use paseo_node.Runtime.Author.Laws.{
  aura_payload, scheduled, find_author-eq-scheduled, author_at_round,
}

-- One byte holds the slot, and an authority is a byte that its account repeats.
abbrev first_byte : Bytes → Option ℕ
first_byte [] = none
first_byte (b ∷ _) = some b

abbrev toy : AuraTypes
toy = record {
  AuraId = ℕ;
  engine_id = codes "aura";
  decode_slot = first_byte;
  account_id = λ id. replicate 32 id;
}

abbrev three : List ℕ
three = 11 ∷ 12 ∷ 13 ∷ []

abbrev digests : List (Bytes × Bytes)
digests = (codes "FRNK", 9 ∷ []) ∷ (codes "aura", 7 ∷ []) ∷ (codes "aura", 8 ∷ []) ∷ []

-- Slot 7 is the second authority's, and a later digest does not count.
second_of_three : find_author toy three digests ≡ some (replicate 32 12)
unfolding find_author
second_of_three = refl

undecodable_slot : find_author toy three ((codes "aura", []) ∷ digests) ≡ none
unfolding find_author
undecodable_slot = refl

no_authorities : find_author toy [] digests ≡ none
unfolding find_author
no_authorities = refl

find_author-eq-scheduled_example :
    find_author toy three digests
    ≡ (aura_payload toy digests >>= first_byte >>= scheduled toy three)
find_author-eq-scheduled_example = find_author-eq-scheduled toy three digests (omega arith)

author_at_round_example :
    (k : ℕ) × (k < 3) × (author_at toy three (100 + k) ≡ some (replicate 32 13))
author_at_round_example = author_at_round toy three 100 2 (omega arith) (omega arith)
