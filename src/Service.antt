-- ===== src/Service.antt =====
-- node/src/service.rs: building the node's parts and starting the node.
pub mod Partial
pub mod Full
pub mod Laws
pub mod Total
pub mod Inherents
pub mod Clock
pub mod RpcBuilder
