-- ===== src/Node/Benchmarking/Period.antt =====
-- The lifetime of a benchmark extrinsic, the `period` of node/src/benchmarking.rs.
use native.Mathlib.Nat.{pow-suc, add-zero, pow-le-pow_right}
use native.Mathlib.Decide.{dec_le}
use paseo_node.Base.{
  ℕ, zero, suc, ◌+◌, ◌*◌, ◌/◌, ◌^◌, ◌≤◌, ◌<◌, ◌≡◌, refl, sym, ap, ◌∙◌, none, some, ◌⊎◌, false,
  arith, leb, Bool-cases, inl, inr,
}
use paseo_node.Runtime.Constants.{block_hash_count}
use paseo_node.Node.Benchmarking.{next_power_from, checked_next_power_of_two, mortal_period}

-- The search from `2 ^ k` finds the first power of two that is not below `n`, if `2 ^ k` is below
-- twice `n` and one of the powers that it tries is not below `n`.
next_power_from_lem :
    (fuel k e n : ℕ)
    → e ≡ k + fuel
    → 2 * n ≤ 2 ^ e
    → 2 ^ k < 2 * n
    → (j : ℕ) × (next_power_from fuel (2 ^ k) n ≡ some (2 ^ j)) × (n ≤ 2 ^ j) × (2 ^ j < 2 * n)
unfolding next_power_from
next_power_from_lem zero k e n same high low =
    let same_power : 2 ^ e ≡ 2 ^ k = ap (λ (x : ℕ). 2 ^ x) (same ∙ add-zero k) in
    absurd (omega arith)
next_power_from_lem (suc fuel) k e n same high low = elim (Bool-cases (leb n (2 ^ k))) [
  | inl reached ↦ (k, rw reached, ground arith, low)
  | inr beyond ↦
      let doubled : 2 ^ suc k ≡ 2 ^ k * 2 = pow-suc 2 k in
      let under : 2 ^ k < n = ground arith in
      let (j, found, above, close) =
        next_power_from_lem fuel (suc k) e n (omega arith) high (omega arith) in
      (j, rw beyond (ap (λ p. next_power_from fuel p n) (sym doubled) ∙ found), above, close)
]

-- For `n` from 2 to `2 ^ 31` the next power of two exists and is the least that is not below `n`.
pub checked_next_power_of_two_lem :
    (n : ℕ)
    → 2 ≤ n
    → n ≤ 2 ^ 31
    → (j : ℕ) × (checked_next_power_of_two n ≡ some (2 ^ j)) × (n ≤ 2 ^ j) × (2 ^ j < 2 * n)
unfolding checked_next_power_of_two
checked_next_power_of_two_lem n h k = next_power_from_lem 32 0 32 n refl (omega arith) (omega arith)

mortal_period_of :
    (count c : ℕ) → checked_next_power_of_two count ≡ some c → mortal_period count ≡ c / 2
unfolding mortal_period
mortal_period_of count c found = rw (found, mortal_period)

half_power : (j : ℕ) → 2 ≤ 2 ^ j → (i : ℕ) × (2 ^ j / 2 ≡ 2 ^ i) × (2 ^ j ≡ 2 * 2 ^ i)
half_power zero h = absurd (omega arith)
half_power (suc i) h = (i, rw (pow-suc 2 i) (omega arith), rw (pow-suc 2 i) (omega arith))

mortal_period_bounds :
    (count : ℕ)
    → 2 ≤ count
    → count ≤ 2 ^ 31
    → (i : ℕ) × (mortal_period count ≡ 2 ^ i)
      × (mortal_period count < count)
      × (count ≤ 2 * mortal_period count)
mortal_period_bounds count h k =
    let (j, found, above, close) = checked_next_power_of_two_lem count h k in
    let (i, half, double) = half_power j (omega arith) in
    let period : mortal_period count ≡ 2 ^ i = mortal_period_of count (2 ^ j) found ∙ half in
    (i, period, omega arith, omega arith)

-- No power that is tried reaches a number above `2 ^ 31`.
next_power_from_beyond :
    (fuel k n : ℕ) → k + fuel ≡ 32 → 2 ^ 31 < n → next_power_from fuel (2 ^ k) n ≡ none
unfolding next_power_from
next_power_from_beyond zero k n same beyond = refl
next_power_from_beyond (suc fuel) k n same beyond =
    let in_range : k ≤ 31 = omega arith in
    let low : 2 ^ k ≤ 2 ^ 31 = pow-le-pow_right (omega arith) in_range in
    let passed : leb n (2 ^ k) ≡ false = ground arith in
    rw passed (
      ap (λ p. next_power_from fuel p n) (sym (pow-suc 2 k))
      ∙ next_power_from_beyond fuel (suc k) n (omega arith) beyond)

mortal_period_of_overflow :
    (count : ℕ) → checked_next_power_of_two count ≡ none → mortal_period count ≡ 2
unfolding mortal_period
mortal_period_of_overflow count overflow = rw (overflow, mortal_period)

mortal_period_beyond : (count : ℕ) → 2 ^ 31 < count → mortal_period count ≡ 2
unfolding checked_next_power_of_two
mortal_period_beyond count h =
    mortal_period_of_overflow count (next_power_from_beyond 32 0 count refl h)

mortal_period_small : (count : ℕ) → count < 2 → mortal_period count ≡ 0
unfolding mortal_period checked_next_power_of_two next_power_from
mortal_period_small zero h = refl
mortal_period_small (suc zero) h = refl
mortal_period_small (suc (suc n)) h = absurd (omega arith)

-- For every number of kept block hashes the search ends: the period is a power of two that is
-- below the number and at least half of it, but for the numbers 0 and 1, where it is 0, and for
-- those above `2 ^ 31`, which no power in the range of `u32` reaches and where it is 2.
pub mortal_period_cases :
    (count : ℕ)
    → ((count < 2) × (mortal_period count ≡ 0))
      ⊎ (((2 ^ 31 < count) × (mortal_period count ≡ 2))
          ⊎ ((i : ℕ) × (mortal_period count ≡ 2 ^ i)
              × (mortal_period count < count)
              × (count ≤ 2 * mortal_period count)))
mortal_period_cases count = elim (dec_le 2 count) [
  | no small ↦ inl (omega arith, mortal_period_small count (omega arith))
  | yes big ↦ elim (dec_le count (2 ^ 31)) [
    | yes within ↦ inr (inr (mortal_period_bounds count big within))
    | no beyond ↦ inr (inl (omega arith, mortal_period_beyond count (omega arith)))
  ]
]

-- The period of the runtime's extrinsics, which keeps 2400 block hashes.
pub period_value : mortal_period block_hash_count ≡ 2048
unfolding mortal_period
period_value = refl
