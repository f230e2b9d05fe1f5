-- ===== src/ChainSpec.antt =====
-- node/src/chain_spec.rs: the genesis state of the development chain and of the local test network.
pub mod Keys
pub mod Genesis
pub mod Config
pub mod Laws
pub mod Accepted
pub mod Failures
