-- ===== src/Runtime.antt =====
-- runtime/src/lib.rs: the runtime's constants and its composition.
pub mod Params
pub mod Time
pub mod Pallets
pub mod Calls
pub mod Routing
pub mod Encoded
pub mod Reaches
pub mod Sudo
pub mod Executive
pub mod Explained
pub mod Blocks
pub mod Applied
pub mod Composed
pub mod Extensions
pub mod Limits
pub mod Fees
pub mod ApiFrame
pub mod Types
pub mod Configs
pub mod PaymentApi
pub mod GenesisApi
pub mod Api
pub mod BenchmarkApi
pub mod TryApi
pub mod Genesis
pub mod Answers
