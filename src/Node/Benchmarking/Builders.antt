-- ===== src/Node/Benchmarking/Builders.antt =====
-- The builders of benchmark extrinsics of node/src/benchmarking.rs, and the list of them that
-- node/src/command.rs hands to `benchmark extrinsic`.
use Prim.Native.String.{String, ◌++◌ as ◌<>◌}
use paseo_node.Base.{
  ℕ, ◌≡◌, refl, false, Option, none, some, List, [], ◌∷◌, Bytes, Result, ok, map_err, ◌⊎◌, inl, inr,
}
use paseo_node.Base.Outcome.{Outcome, returns, panics, ◌>>=◌}
use paseo_node.Runtime.Types.{AccountId, Balance, BlockNumber, Hash, Nonce}
use paseo_node.Runtime.Constants.{existential_deposit}
use paseo_node.Node.Benchmarking.Period.{period_value}
use paseo_node.Node.Benchmarking.{
  Extension, authorize_call, check_non_zero_sender, check_spec_version, check_tx_version,
  check_genesis, check_era, check_nonce, check_weight, charge_transaction_payment,
  check_metadata_hash, weight_reclaim, Implicit, nothing, number, hash, optional_hash, Signing,
  SignedExtrinsic, found, tx_extensions, tx_implicits, create_benchmark_extrinsic,
}

-- What the builders use of the keyring, of the runtime's calls and of `OpaqueExtrinsic`.
pub record Keys (S : Signing) : Type 1 where
  pub OpaqueExtrinsic : Type 0
  pub opaque : SignedExtrinsic S → OpaqueExtrinsic
  pub bob : S.Pair
  pub alice_account : AccountId
  pub remark : Bytes → S.RuntimeCall
  pub transfer_keep_alive : AccountId → Balance → S.RuntimeCall

-- The two implementors of `ExtrinsicBuilder`, without the client.
pub data Builder : Type 0 where
  remark_builder : Builder
  transfer_keep_alive_builder : AccountId → Balance → Builder

abbrev pub pallet_name : Builder → String
pallet_name remark_builder = "system"
pallet_name (transfer_keep_alive_builder _ _) = "balances"

abbrev pub extrinsic_name : Builder → String
extrinsic_name remark_builder = "remark"
extrinsic_name (transfer_keep_alive_builder _ _) = "transfer_keep_alive"

module _ (S : Signing) (K : Keys S) where
  open K use {OpaqueExtrinsic, opaque, bob, remark, transfer_keep_alive}

  unfoldable pub build : Builder → Nonce → Outcome (Result OpaqueExtrinsic String)
  build remark_builder nonce = do
    extrinsic ← create_benchmark_extrinsic S bob (remark []) nonce
    returns (ok (opaque extrinsic))
  build (transfer_keep_alive_builder dest value) nonce = do
    extrinsic ← create_benchmark_extrinsic S bob (transfer_keep_alive dest value) nonce
    returns (ok (opaque extrinsic))

  -- The vector of `BenchmarkCmd::Extrinsic`.
  abbrev pub extrinsic_factory : List Builder
  extrinsic_factory =
      remark_builder ∷ transfer_keep_alive_builder K.alice_account existential_deposit ∷ []

  -- The call that a builder is for.
  abbrev pub call_of : Builder → S.RuntimeCall
  call_of remark_builder = remark []
  call_of (transfer_keep_alive_builder dest value) = transfer_keep_alive dest value

  -- What is signed beside the call of a transaction: the extensions with their data, where the
  -- transaction lives for the 2048 blocks from `best` on and gives no tip, and for each of them what
  -- the runtime adds, where `genesis` and `current` are the hashes of the first and the best block.
  abbrev pub signed_extensions : BlockNumber → Nonce → List (Extension S.Era)
  signed_extensions best nonce =
      authorize_call
      ∷ check_non_zero_sender
      ∷ check_spec_version
      ∷ check_tx_version
      ∷ check_genesis
      ∷ check_era (S.mortal 2048 best)
      ∷ check_nonce nonce
      ∷ check_weight
      ∷ charge_transaction_payment 0
      ∷ check_metadata_hash false
      ∷ weight_reclaim
      ∷ []

  abbrev pub signed_data : (genesis current : Hash) → List Implicit
  signed_data genesis current =
      nothing
      ∷ nothing
      ∷ number 200
      ∷ number 1
      ∷ hash genesis
      ∷ hash current
      ∷ nothing
      ∷ nothing
      ∷ nothing
      ∷ optional_hash none
      ∷ nothing
      ∷ []

  -- An extrinsic with the call that Bob has signed, the extensions and the data of the chain
  -- included.
  pub record IsSignedByBob (genesis : Hash) (call : S.RuntimeCall) (nonce : Nonce)
      (x : SignedExtrinsic S) : Type 0 where
    pub has_call : x.call ≡ call
    pub has_signer : x.signer ≡ S.public_account bob
    pub has_extensions : x.extensions ≡ signed_extensions (S.info 1).best_number nonce
    pub has_signature :
        x.signature
        ≡ S.sign bob call
            (signed_extensions (S.info 1).best_number nonce)
            (signed_data genesis (S.info 0).best_hash)

  extensions_lem :
      (best : BlockNumber) (nonce : Nonce)
      → tx_extensions S best nonce ≡ signed_extensions best nonce
  unfolding tx_extensions
  extensions_lem best nonce = rw period_value refl

  implicits_lem : (h best : Hash) → tx_implicits S h best ≡ signed_data h best
  unfolding tx_implicits
  implicits_lem h best = refl

  abbrev IsMade : S.RuntimeCall → Nonce → Type 0
  IsMade call nonce =
      ((found S (S.block_hash 0) ≡ none) × (create_benchmark_extrinsic S bob call nonce ≡ panics))
      ⊎ ((genesis : Hash) × (x : SignedExtrinsic S) × (found S (S.block_hash 0) ≡ some genesis)
          × (create_benchmark_extrinsic S bob call nonce ≡ returns x)
          × IsSignedByBob genesis call nonce x)

  genesis-IsMade :
      (call : S.RuntimeCall) (nonce : Nonce) (genesis : Option Hash)
      → found S (S.block_hash 0) ≡ genesis
      → IsMade call nonce
  unfolding create_benchmark_extrinsic
  genesis-IsMade call nonce none e = inl (e, rw e refl)
  genesis-IsMade call nonce (some h) e =
      let exts = signed_extensions (S.info 1).best_number nonce in
      let x : SignedExtrinsic S = record {
        call = call;
        signer = S.public_account bob;
        signature = S.sign bob call exts (signed_data h (S.info 0).best_hash);
        extensions = exts;
      } in
      inr (
        h,
        x,
        e,
        rw (e, extensions_lem (S.info 1).best_number nonce, implicits_lem h (S.info 0).best_hash)
            refl,
        record { has_call = refl; has_signer = refl; has_extensions = refl; has_signature = refl },
      )

  -- A builder never returns its error: it panics when the client does not find the genesis block,
  -- and else it builds an extrinsic of its call that Bob has signed. It lives for 2048 blocks from
  -- the number of the best block of the second read, has the nonce and gives no tip, and the
  -- signature covers the call, these extensions, the versions 200 and 1 of the runtime, the hash of
  -- the genesis block that was found and that of the best block of the first read.
  pub build_cases :
      (b : Builder) (nonce : Nonce)
      → ((found S (S.block_hash 0) ≡ none) × (build b nonce ≡ panics))
        ⊎ ((genesis : Hash) × (x : SignedExtrinsic S) × (found S (S.block_hash 0) ≡ some genesis)
            × (build b nonce ≡ returns (ok (opaque x)))
            × IsSignedByBob genesis (call_of b) nonce x)
  unfolding build
  build_cases remark_builder nonce = elim (genesis-IsMade (remark []) nonce _ refl) [
    | inl (missing, e) ↦ inl (missing, rw e refl)
    | inr (h, x, there, e, signed) ↦ inr (h, x, there, rw e refl, signed)
  ]
  build_cases (transfer_keep_alive_builder dest value) nonce =
      elim (genesis-IsMade (transfer_keep_alive dest value) nonce _ refl) [
        | inl (missing, e) ↦ inl (missing, rw e refl)
        | inr (h, x, there, e, signed) ↦ inr (h, x, there, rw e refl, signed)
      ]

-- The data of `sp_inherents` and the provider of a timestamp.
pub record Inherents : Type 1 where
  pub InherentData : Type 0
  pub new : InherentData
  pub ProviderError : Type 0
  pub debug : ProviderError → String
  pub provide_timestamp : ℕ → InherentData → Result InherentData ProviderError

unfoldable pub inherent_benchmark_data : (I : Inherents) → Result I.InherentData String
inherent_benchmark_data I =
    map_err (λ e. "creating inherent data: " <> I.debug e) (I.provide_timestamp 0 I.new)
