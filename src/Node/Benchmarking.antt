-- ===== src/Node/Benchmarking.antt =====
-- The extrinsics of the benchmark commands, node/src/benchmarking.rs, with the runtime's
-- transaction extensions of runtime/src/lib.rs.
pub mod Period
pub mod Builders
pub mod Laws
use Prim.Native.String.{String}
use paseo_node.Base.{
  ℕ, zero, suc, ◌*◌, ◌/◌, ◌^◌, Bool, true, false, Option, none, some, List, [], ◌∷◌, ltb, leb,
  Result, ok, err, if◌then◌else◌,
}
use paseo_node.Base.Outcome.{Outcome, returns, panics, expect, ◌>>=◌}
use paseo_node.Runtime.Types.{AccountId, Balance, BlockNumber, Hash, Nonce}
use paseo_node.Runtime.Constants.{block_hash_count}
use paseo_node.Runtime.Version.{version}
use paseo_node.Node.PnsRpc.{ChainInfo}

-- The components of `TxExtension`, with the data that each carries.
pub data Extension (Era : Type 0) : Type 0 where
  authorize_call check_non_zero_sender check_spec_version check_tx_version : Extension Era
  check_genesis : Extension Era
  check_era : Era → Extension Era
  check_nonce : Nonce → Extension Era
  check_weight : Extension Era
  charge_transaction_payment : Balance → Extension Era
  check_metadata_hash : Bool → Extension Era
  weight_reclaim : Extension Era

-- What is signed beside the call and the extensions, for one extension: `()`, a number, a hash
-- or an optional hash.
pub data Implicit : Type 0 where
  nothing : Implicit
  number : ℕ → Implicit
  hash : Hash → Implicit
  optional_hash : Option Hash → Implicit

-- The search of `u32::checked_next_power_of_two`: the first of `p`, `2 p`, … that is not below
-- `n`, in at most `fuel` tries. From 1 there are 32 powers in range.
next_power_from : ℕ → ℕ → ℕ → Option ℕ
next_power_from zero p n = none
next_power_from (suc fuel) p n =
    let rest = next_power_from fuel (p * 2) n in if leb n p then some p else rest

unfoldable pub checked_next_power_of_two : ℕ → Option ℕ
unfolding next_power_from
checked_next_power_of_two n = next_power_from 32 1 n

-- The `let period` of `create_benchmark_extrinsic`, for a number of kept block hashes.
unfoldable pub mortal_period : ℕ → ℕ
unfolding checked_next_power_of_two
mortal_period count = elim (checked_next_power_of_two count) [ some c ↦ c / 2 | none ↦ 2 ]

-- What is used of the client, of `sp_runtime` and of `sp_core`; `info n` is what read number `n`
-- of the chain's information returns.
pub record Signing : Type 1 where
  pub RuntimeCall : Type 0
  pub Pair : Type 0
  pub Signature : Type 0
  pub Era : Type 0
  pub ClientError : Type 0
  pub mortal : ℕ → BlockNumber → Era
  pub public_account : Pair → AccountId
  -- `SignedPayload::from_raw` and `using_encoded` with the pair's `sign`
  pub sign : Pair → RuntimeCall → List (Extension Era) → List Implicit → Signature
  pub block_hash : BlockNumber → Result (Option Hash) ClientError
  pub info : ℕ → ChainInfo

module _ (S : Signing) where
  open S use {RuntimeCall, Pair, Signature, Era, ClientError, mortal, public_account, sign, info}

  -- `UncheckedExtrinsic::new_signed`
  pub record SignedExtrinsic : Type 0 where
    pub call : RuntimeCall
    pub signer : AccountId
    pub signature : Signature
    pub extensions : List (Extension Era)

  -- `.ok().flatten()`
  abbrev pub found {ℓ κ} : {A : Type ℓ} {E : Type κ} → Result (Option A) E → Option A
  found (ok o) = o
  found (err e) = none

  -- `tx_ext`
  unfoldable pub tx_extensions : BlockNumber → Nonce → List (Extension Era)
  tx_extensions best_block nonce =
      authorize_call
      ∷ check_non_zero_sender
      ∷ check_spec_version
      ∷ check_tx_version
      ∷ check_genesis
      ∷ check_era (mortal (mortal_period block_hash_count) best_block)
      ∷ check_nonce nonce
      ∷ check_weight
      ∷ charge_transaction_payment 0
      ∷ check_metadata_hash false
      ∷ weight_reclaim
      ∷ []

  -- The last argument of `SignedPayload::from_raw`.
  unfoldable pub tx_implicits : Hash → Hash → List Implicit
  tx_implicits genesis_hash best_hash =
      nothing
      ∷ nothing
      ∷ number version.spec_version
      ∷ number version.transaction_version
      ∷ hash genesis_hash
      ∷ hash best_hash
      ∷ nothing
      ∷ nothing
      ∷ nothing
      ∷ optional_hash none
      ∷ nothing
      ∷ []

  unfoldable pub create_benchmark_extrinsic : Pair → RuntimeCall → Nonce → Outcome SignedExtrinsic
  create_benchmark_extrinsic sender call nonce = do
    genesis_hash ← expect (found (S.block_hash 0))
    let best_hash = (info 0).best_hash
    let best_block = (info 1).best_number
    let tx_ext = tx_extensions best_block nonce
    let signature = sign sender call tx_ext (tx_implicits genesis_hash best_hash)
    returns (record {
      call = call;
      signer = public_account sender;
      signature = signature;
      extensions = tx_ext;
    })
