-- ===== src/Examples.antt =====
-- Runs of the model at concrete data, and the theorems at inputs that meet their hypotheses.
mod Author
mod Names
mod Rpc
mod Genesis
mod Extrinsic
mod Adapters
mod Service
mod Specs
mod Commands
mod Apis
mod Servers
mod Threads
mod Times
mod Configs
mod Calls
