-- ===== src/Runtime/Types.antt =====
-- The primitive types of runtime/src/lib.rs. Integers are natural numbers whose range is stated
-- where it matters; an account and a hash are their 32 bytes.
use paseo_node.Base.{ℕ, Bytes}

abbrev pub AccountId : Type 0
AccountId = Bytes

abbrev pub Balance : Type 0
Balance = ℕ

abbrev pub Nonce : Type 0
Nonce = ℕ

abbrev pub Hash : Type 0
Hash = Bytes

abbrev pub BlockNumber : Type 0
BlockNumber = ℕ

-- `pns_types::DomainHash`, a 32-byte hash
abbrev pub DomainHash : Type 0
DomainHash = Bytes

-- milliseconds since the epoch, `u64`
abbrev pub Moment : Type 0
Moment = ℕ
