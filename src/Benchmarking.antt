-- ===== src/Benchmarking.antt =====
-- node/src/benchmarking.rs: the signed extrinsics that the benchmark commands send.
pub mod Period
pub mod Host
pub mod Extrinsic
pub mod Accepted
pub mod Builders
pub mod Payload
pub mod Replay
pub mod Submitted
pub mod Budget
pub mod Taken
