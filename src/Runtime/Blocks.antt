-- ===== src/Runtime/Blocks.antt =====
-- The types of blocks, transactions and session keys of runtime/src/lib.rs, made of the generic
-- types of sp_runtime. `opaque` has the node's, in which an extrinsic is bytes.
use paseo_node.Runtime.Types.{AccountId, BlockNumber}

-- `sp_runtime`: its generic types, of which nothing is known, and the tags of its hashers.
pub record SpRuntime : Type 1 where
  pub Hashing : Type 0
  pub blake_two_256 : Hashing
  pub Header : Type 0 → Hashing → Type 0
  pub Block : Type 0 → Type 0 → Type 0
  pub SignedBlock : Type 0 → Type 0
  pub BlockId : Type 0 → Type 0
  pub OpaqueExtrinsic : Type 0
  pub UncheckedExtrinsic : Type 0 → Type 0 → Type 0 → Type 0 → Type 0
  pub SignedPayload : Type 0 → Type 0 → Type 0
  pub MultiAddress : Type 0 → Type 0 → Type 0
  pub MultiSignature : Type 0

module _ (S : SpRuntime) where
  abbrev pub Signature : Type 0
  Signature = S.MultiSignature

  abbrev pub Address : Type 0
  Address = S.MultiAddress AccountId (Unit {0})

  abbrev pub Header : Type 0
  Header = S.Header BlockNumber S.blake_two_256

  -- The runtime's, over the calls of its pallets and its transaction extensions.
  module _ (RuntimeCall TxExtension : Type 0) where
    abbrev pub UncheckedExtrinsic : Type 0
    UncheckedExtrinsic = S.UncheckedExtrinsic Address RuntimeCall Signature TxExtension

    abbrev pub Block : Type 0
    Block = S.Block Header UncheckedExtrinsic

    abbrev pub SignedBlock : Type 0
    SignedBlock = S.SignedBlock Block

    abbrev pub BlockId : Type 0
    BlockId = S.BlockId Block

    abbrev pub SignedPayload : Type 0
    SignedPayload = S.SignedPayload RuntimeCall TxExtension

  -- The node's
  abbrev pub OpaqueHeader : Type 0
  OpaqueHeader = S.Header BlockNumber S.blake_two_256

  abbrev pub OpaqueBlock : Type 0
  OpaqueBlock = S.Block OpaqueHeader S.OpaqueExtrinsic

  abbrev pub OpaqueBlockId : Type 0
  OpaqueBlockId = S.BlockId OpaqueBlock

-- `SessionKeys`, over the keys of Aura
pub record SessionKeys (AuraId : Type 0) : Type 0 where
  pub aura : AuraId
