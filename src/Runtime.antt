-- ===== src/Runtime.antt =====
-- The runtime crate: runtime/src.
pub mod Types
pub mod Constants
pub mod Version
mod Blocks
pub mod Pallets
pub mod Benchmarks
pub mod Author
pub mod Proxy
pub mod Adapters
pub mod Pns
pub mod Genesis
pub mod Apis
pub mod Config
pub mod Features
