-- ===== src/Node/Benchmarking/Laws.antt =====
-- The signature of a benchmark extrinsic, node/src/benchmarking.rs, against what the runtime's
-- transaction extensions put beside the call when they check it.
use paseo_node.Base.{ℕ, ◌+◌, ◌<◌, ◌≤◌, ◌≡◌, refl, ap, ◌∙◌, false, none, some, map, arith, ok}
use paseo_node.Base.Outcome.{returns}
use paseo_node.Runtime.Types.{BlockNumber, Hash, Nonce}
use paseo_node.Runtime.Constants.{block_hash_count}
use paseo_node.Runtime.Version.{version}
use paseo_node.Node.PnsRpc.{ChainInfo}
use paseo_node.Node.Benchmarking.Period.{period_value}
use paseo_node.Node.Benchmarking.{
  Extension, authorize_call, check_non_zero_sender, check_spec_version, check_tx_version,
  check_genesis, check_era, check_nonce, check_weight, charge_transaction_payment,
  check_metadata_hash, weight_reclaim, Implicit, nothing, number, hash, optional_hash,
  mortal_period, Signing, SignedExtrinsic, tx_extensions, tx_implicits, create_benchmark_extrinsic,
}

-- What each extension of the runtime adds to the signed payload when it is checked in the block of
-- number `now`: most nothing, the others a version, the genesis hash, the hash of the block at which
-- the era began, which is before the block and among the hashes that are kept, or an optional hash
-- of the metadata. An era of 2048 blocks that is made at a block began at that block, as seen from
-- each of them.
pub record RuntimeChecks (S : Signing) (hash_at : BlockNumber → Hash) : Type 0 where
  pub implicit : BlockNumber → Extension S.Era → Implicit
  pub birth : S.Era → BlockNumber → BlockNumber
  pub of_authorize_call : (now : BlockNumber) → implicit now authorize_call ≡ nothing
  pub of_check_non_zero_sender : (now : BlockNumber) → implicit now check_non_zero_sender ≡ nothing
  pub of_check_spec_version :
      (now : BlockNumber) → implicit now check_spec_version ≡ number version.spec_version
  pub of_check_tx_version :
      (now : BlockNumber) → implicit now check_tx_version ≡ number version.transaction_version
  pub of_check_genesis : (now : BlockNumber) → implicit now check_genesis ≡ hash (hash_at 0)
  pub of_check_era :
      (now : BlockNumber) (e : S.Era)
      → birth e now < now
      → now ≤ birth e now + block_hash_count
      → implicit now (check_era e) ≡ hash (hash_at (birth e now))
  pub of_check_nonce : (now : BlockNumber) (n : Nonce) → implicit now (check_nonce n) ≡ nothing
  pub of_check_weight : (now : BlockNumber) → implicit now check_weight ≡ nothing
  pub of_charge_transaction_payment :
      (now : BlockNumber) (tip : ℕ) → implicit now (charge_transaction_payment tip) ≡ nothing
  pub of_check_metadata_hash :
      (now : BlockNumber) → implicit now (check_metadata_hash false) ≡ optional_hash none
  pub of_weight_reclaim : (now : BlockNumber) → implicit now weight_reclaim ≡ nothing
  pub birth-mortal :
      (made now : BlockNumber)
      → made ≤ now
      → now < made + 2048
      → birth (S.mortal 2048 made) now ≡ made

module _ (S : Signing) (hash_at : BlockNumber → Hash) (K : RuntimeChecks S hash_at) where
  open K use {implicit, birth}

  era_hash :
      (n now : BlockNumber)
      → n < now
      → now < n + 2048
      → implicit now (check_era (S.mortal (mortal_period block_hash_count) n)) ≡ hash (hash_at n)
  era_hash n now after alive =
      let born : birth (S.mortal 2048 n) now ≡ n = K.birth-mortal n now (omega arith) alive in
      rw period_value (
        K.of_check_era now (S.mortal 2048 n) (omega arith) (omega arith)
        ∙ ap (λ b. hash (hash_at b)) born)

  tx_implicits-eq-implicit :
      (n now : BlockNumber) (nonce : Nonce)
      → n < now
      → now < n + 2048
      → tx_implicits S (hash_at 0) (hash_at n) ≡ map (implicit now) (tx_extensions S n nonce)
  unfolding tx_implicits tx_extensions
  tx_implicits-eq-implicit n now nonce after alive = simp (
    K.of_authorize_call,
    K.of_check_non_zero_sender,
    K.of_check_spec_version,
    K.of_check_tx_version,
    K.of_check_genesis,
    era_hash n now after alive,
    K.of_check_nonce,
    K.of_check_weight,
    K.of_charge_transaction_payment,
    K.of_check_metadata_hash,
    K.of_weight_reclaim,
  )

  -- Where the runtime's extensions add what is documented of them, the client knows the genesis
  -- block, and both reads of the chain's information show the same block, under its hash, the
  -- extrinsic is made and signed over exactly the call, the extensions and the data that the
  -- runtime's extensions add when they check it in any of the 2047 blocks after that block.
  pub create_benchmark_extrinsic_signed :
      (sender : S.Pair) (call : S.RuntimeCall) (nonce : Nonce) (now : BlockNumber)
      → S.block_hash 0 ≡ ok (some (hash_at 0))
      → S.info 0 ≡ S.info 1
      → (S.info 1).best_hash ≡ hash_at (S.info 1).best_number
      → (S.info 1).best_number < now
      → now < (S.info 1).best_number + 2048
      → (x : SignedExtrinsic S) × (create_benchmark_extrinsic S sender call nonce ≡ returns x)
        × (x.call ≡ call)
        × (x.signer ≡ S.public_account sender)
        × (x.signature ≡ S.sign sender x.call x.extensions (map (implicit now) x.extensions))
  unfolding create_benchmark_extrinsic
  create_benchmark_extrinsic_signed sender call nonce now genesis still best after alive =
      let exts = tx_extensions S (S.info 1).best_number nonce in
      let same : (S.info 0).best_hash ≡ hash_at (S.info 1).best_number =
        ap (λ (c : ChainInfo). c.best_hash) still ∙ best in
      (
        record {
          call = call;
          signer = S.public_account sender;
          signature = S.sign sender call exts (tx_implicits S (hash_at 0) (S.info 0).best_hash);
          extensions = exts;
        },
        rw genesis,
        refl,
        refl,
        rw same (
            ap (S.sign sender call exts)
              (tx_implicits-eq-implicit (S.info 1).best_number now nonce after alive)),
      )
