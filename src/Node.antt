-- ===== src/Node.antt =====
-- The node crate: node/src.
pub mod PnsRpc
pub mod Benchmarking
pub mod Effect
pub mod Service
pub mod Command
pub mod ChainSpec
pub mod Inherents
mod Entry
pub mod Rpc
