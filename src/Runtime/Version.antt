-- ===== src/Runtime/Version.antt =====
-- `VERSION` and `native_version` of runtime/src/lib.rs.
use Prim.Native.String.{String}
use paseo_node.Base.{ℕ, List, []}

-- `VERSION`, but for the versions of the APIs
pub record RuntimeVersion : Type 0 where
  pub spec_name : String
  pub impl_name : String
  pub authoring_version : ℕ
  pub spec_version : ℕ
  pub impl_version : ℕ
  pub transaction_version : ℕ
  pub system_version : ℕ

abbrev pub version : RuntimeVersion
version = record {
  spec_name = "paseo-runtime";
  impl_name = "paseo-runtime";
  authoring_version = 1;
  spec_version = 200;
  impl_version = 1;
  transaction_version = 1;
  system_version = 1;
}

-- `can_author_with` is the set of the other runtimes that the native one supports for authoring.
pub record NativeVersion : Type 0 where
  pub runtime_version : RuntimeVersion
  pub can_author_with : List ℕ

abbrev pub native_version : NativeVersion
native_version = record { runtime_version = version; can_author_with = [] }
