-- ===== src/Runtime/Features/Laws.antt =====
-- Which builds pass the guard of runtime/src/lib.rs and have the verifiers that
-- runtime/src/configs/mod.rs names.
use paseo_node.Base.{◌≡◌, ◌↔◌, ◌⊎◌, true, false, arith}
use paseo_node.Runtime.Features.{Build, test_attestation, production, guard}

-- The mock verifiers are turned on, by the default features or by name.
abbrev pub IsTestnet : Build → Type 0
IsTestnet b = (b.default_features ≡ true) ⊎ (b.requested test_attestation ≡ true)

-- The guard refuses exactly the builds that ask for `production` and have the mock verifiers.
pub guard_iff : (b : Build) → (guard b ≡ false) ↔ ((b.requested production ≡ true) × IsTestnet b)
unfolding guard
guard_iff b = ground arith
