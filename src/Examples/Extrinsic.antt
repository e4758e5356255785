-- ===== src/Examples/Extrinsic.antt =====
-- A benchmark extrinsic on a chain of 40 blocks.
use paseo_node.Base.{
  ℕ, ◌+◌, ◌-◌, ◌/◌, ◌%◌, ltb, if◌then◌else◌, arith, ◌*◌, ◌^◌, ◌≤◌, ◌<◌, ◌≡◌, refl, false, none,
  some, List, [], ◌∷◌, map, ok, ◌⊎◌, length,
}
use paseo_node.Base.Outcome.{returns, panics}
use paseo_node.Runtime.Types.{Hash}
use paseo_node.Node.Benchmarking.{
  Extension, check_spec_version, check_tx_version, check_genesis, check_era, check_metadata_hash,
  Implicit, nothing, number, hash, optional_hash, mortal_period, Signing, SignedExtrinsic, found,
  create_benchmark_extrinsic,
}
use paseo_node.Node.Benchmarking.Builders.{
  Keys, remark_builder, transfer_keep_alive_builder, build, call_of, IsSignedByBob, build_cases,
}
use paseo_node.Node.Benchmarking.Period.{mortal_period_cases}
use paseo_node.Node.Benchmarking.Laws.{RuntimeChecks, create_benchmark_extrinsic_signed}

period_values :
    (mortal_period 2400 ≡ 2048)
    × (mortal_period 4096 ≡ 2048)
    × (mortal_period 4097 ≡ 4096)
    × (mortal_period (2 ^ 31 + 1) ≡ 2)
    × (mortal_period 0 ≡ 0)
unfolding mortal_period
period_values = (refl, refl, refl, refl, refl)

mortal_period_cases_example :
    ((2400 < 2) × (mortal_period 2400 ≡ 0))
    ⊎ (((2 ^ 31 < 2400) × (mortal_period 2400 ≡ 2))
        ⊎ ((i : ℕ) × (mortal_period 2400 ≡ 2 ^ i)
            × (mortal_period 2400 < 2400)
            × (2400 ≤ 2 * mortal_period 2400)))
mortal_period_cases_example = mortal_period_cases 2400

-- A signature is what was signed, an era its period and its phase in it.
abbrev hash_at : ℕ → Hash
hash_at n = n ∷ []

abbrev toy : Signing
toy = record {
  RuntimeCall = ℕ;
  Pair = ℕ;
  Signature = ℕ × ℕ × List (Extension (ℕ × ℕ)) × List Implicit;
  Era = ℕ × ℕ;
  ClientError = ℕ;
  mortal = λ period current. (period, current % period);
  public_account = λ key. key ∷ [];
  sign = λ key call exts implicits. (key, call, exts, implicits);
  block_hash = λ n. ok (some (hash_at n));
  info = λ n. record { best_hash = 40 ∷ []; best_number = 40 };
}

-- The last block with the phase of the era that is not after the current one.
abbrev birth_of : ℕ × ℕ → ℕ → ℕ
birth_of (period, phase) now =
    let later = if ltb now phase then phase else now in (later - phase) / period * period + phase

birth_lem :
    (made now : ℕ) → made ≤ now → now < made + 2048 → birth_of (2048, made % 2048) now ≡ made
birth_lem made now since alive =
    let late : ltb now (made % 2048) ≡ false = ground arith in rw late (omega arith)

abbrev implicit_of : ℕ → Extension (ℕ × ℕ) → Implicit
implicit_of now check_spec_version = number 200
implicit_of now check_tx_version = number 1
implicit_of now check_genesis = hash (0 ∷ [])
implicit_of now (check_era e) = hash (birth_of e now ∷ [])
implicit_of now (check_metadata_hash b) = optional_hash none
implicit_of now _ = nothing

toy_checks : RuntimeChecks toy hash_at
toy_checks = record {
  implicit = implicit_of;
  birth = birth_of;
  of_authorize_call = λ now. refl;
  of_check_non_zero_sender = λ now. refl;
  of_check_spec_version = λ now. refl;
  of_check_tx_version = λ now. refl;
  of_check_genesis = λ now. refl;
  of_check_era = λ now e past kept. refl;
  of_check_nonce = λ now n. refl;
  of_check_weight = λ now. refl;
  of_charge_transaction_payment = λ now tip. refl;
  of_check_metadata_hash = λ now. refl;
  of_weight_reclaim = λ now. refl;
  birth-mortal = birth_lem;
}

create_benchmark_extrinsic_signed_example :
    (x : SignedExtrinsic toy) × (create_benchmark_extrinsic toy 3 77 9 ≡ returns x)
    × (x.call ≡ 77)
    × (x.signer ≡ 3 ∷ [])
    × (x.signature ≡ toy.sign 3 x.call x.extensions (map (toy_checks.implicit 41) x.extensions))
create_benchmark_extrinsic_signed_example =
    create_benchmark_extrinsic_signed toy hash_at toy_checks 3 77 9 41 refl refl refl (omega arith)
      (omega arith)

-- A call is a number, and an opaque extrinsic is its call.
abbrev toy_keys : Keys toy
toy_keys = record {
  OpaqueExtrinsic = ℕ;
  opaque = λ x. x.call;
  bob = 2;
  alice_account = 1 ∷ [];
  remark = length;
  transfer_keep_alive = λ dest value. 100 + value;
}

built : build toy toy_keys (transfer_keep_alive_builder (1 ∷ []) 7) 4 ≡ returns (ok 107)
unfolding build create_benchmark_extrinsic
built = refl

build_cases_example :
    ((found toy (toy.block_hash 0) ≡ none) × (build toy toy_keys remark_builder 4 ≡ panics))
    ⊎ ((genesis : Hash) × (x : SignedExtrinsic toy) × (found toy (toy.block_hash 0) ≡ some genesis)
        × (build toy toy_keys remark_builder 4 ≡ returns (ok x.call))
        × IsSignedByBob toy toy_keys genesis (call_of toy toy_keys remark_builder) 4 x)
build_cases_example = build_cases toy toy_keys remark_builder 4
