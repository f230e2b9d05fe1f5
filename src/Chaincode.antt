-- ===== src/Chaincode.antt =====
-- interoperability_fabric.go: the Fabric chaincode that keeps assets in the world state.
pub mod Stub
pub mod Contract
pub mod Laws
pub mod Ledger
pub mod Refinement
pub mod Listing
pub mod Inventory
pub mod Invariant
