-- ===== src/Runtime/Author/Laws.antt =====
-- Whose turn a slot is, and which digest decides: `AuraAccountFinder` of
-- runtime/src/configs/mod.rs.
use mathlib.Core.Path.{fun_ext}
use native.Mathlib.Nat.{mod-eq_of_lt, mod-add-mod, add-mod_right}
use native.Mathlib.Decide.{dec_le}
use paseo_node.Base.{
  ℕ, ◌+◌, ◌-◌, ◌%◌, ◌^◌, ◌≤◌, ◌<◌, ◌≡◌, refl, ap, ◌∙◌, Option, none, some, List, [], ◌∷◌, Bytes,
  length, get_elem?, arith, inl, inr, Bool-cases, ◌==◌, list_eq, nat_eq, if◌then◌else◌,
}
use paseo_node.Base.Try.{◌>>=◌}
use paseo_node.Runtime.Types.{AccountId}
use paseo_node.Runtime.Constants.{max_authorities}
use paseo_node.Runtime.Author.{AuraTypes, author_at, find_author}

module _ (T : AuraTypes) where
  open T use {AuraId, engine_id, decode_slot, account_id}

  -- The payload of the first Aura digest.
  abbrev pub aura_payload : List (Bytes × Bytes) → Option Bytes
  aura_payload [] = none
  aura_payload ((engine, payload) ∷ digests) =
      let rest = aura_payload digests in if engine == engine_id then some payload else rest

  -- The authority at the slot's number, counted round the list.
  abbrev pub scheduled : List AuraId → ℕ → Option AccountId
  scheduled authorities slot = do
    authority ← get_elem? authorities (slot % length authorities)
    some (account_id authority)

  -- The casts keep their values: at most 32 authorities are stored.
  casts : (n m : ℕ) → 0 < m → m ≤ max_authorities → (n % (m % 2 ^ 64)) % 2 ^ 32 ≡ n % m
  casts n m p h =
      let small : m % 2 ^ 64 ≡ m = omega arith in
      let below : n % m < m = omega arith in rw small (mod-eq_of_lt (omega arith))

  author_at-eq-scheduled :
      (authorities : List AuraId) (slot : ℕ)
      → length authorities ≤ max_authorities
      → author_at T authorities slot ≡ scheduled authorities slot
  unfolding author_at
  author_at-eq-scheduled [] slot h = refl
  author_at-eq-scheduled (a ∷ more) slot h = rw (casts slot (length (a ∷ more)) (omega arith) h)

  -- The loop stops at the first digest of the Aura engine, which alone decides: its slot names
  -- the authority, and the answer is none exactly if there is no such digest, if its slot does
  -- not decode or if there are no authorities. At most 32 authorities are stored.
  pub find_author-eq-scheduled :
      (authorities : List AuraId) (digests : List (Bytes × Bytes))
      → length authorities ≤ max_authorities
      → find_author T authorities digests
        ≡ (aura_payload digests >>= decode_slot >>= scheduled authorities)
  unfolding find_author
  find_author-eq-scheduled authorities [] h = refl
  find_author-eq-scheduled authorities ((engine, payload) ∷ digests) h =
      elim (Bool-cases (engine == engine_id)) [
        | inl same ↦ rw same (
            ap (λ f. decode_slot payload >>= f)
              (fun_ext (λ slot. author_at-eq-scheduled authorities slot h)))
        | inr other ↦ rw other (find_author-eq-scheduled authorities digests h)
      ]

  turn : (s i n : ℕ) → i < n → (k : ℕ) × (k < n) × ((s + k) % n ≡ i)
  turn s i n h =
      let below : s % n < n = omega arith in
      elim (dec_le (s % n) i) [
        | yes p ↦
            let k = i - s % n in
            (k, omega arith, rw (← mod-add-mod s n k) (rw (at_place p) (mod-eq_of_lt h)))
        | no q ↦
            let k = i + n - s % n in
            (k, omega arith, rw (← mod-add-mod s n k) (rw (past_end q) past))
      ]
    where
      past_end : ¬ (s % n ≤ i) → s % n + (i + n - s % n) ≡ i + n
      past_end q = let below : s % n < n = omega arith in omega arith

      past : (i + n) % n ≡ i
      past = rw (add-mod_right i n) (mod-eq_of_lt h)

      at_place : s % n ≤ i → s % n + (i - s % n) ≡ i
      at_place p = omega arith

  -- Among any consecutive slots as many as there are authorities, every authority has a turn. At
  -- most 32 authorities are stored.
  pub author_at_round :
      (authorities : List AuraId) (s i : ℕ)
      → length authorities ≤ max_authorities
      → i < length authorities
      → (k : ℕ) × (k < length authorities)
        × (author_at T authorities (s + k)
            ≡ (get_elem? authorities i >>= λ authority. some (account_id authority)))
  author_at_round authorities s i h below =
      let (k, in_round, at_turn) = turn s i (length authorities) below in
      (k, in_round, author_at-eq-scheduled authorities (s + k) h ∙ rw at_turn)
