-- ===== src/Tests.antt =====
-- The theorems applied at concrete inputs, with small stand-ins for FRAME, Substrate and Fabric.
mod Toys
mod PalletRuns
mod RuntimeRuns
mod SudoRuns
mod ToyStorage
mod Composition
mod ComposedRuns
mod BlockRuns
mod CountedRuntime
mod SubmittedRuns
mod BenchmarkRuns
mod ClockRuns
mod ChainRuns
mod ClientRuns
mod PayloadRuns
mod NodeRuns
mod ChaincodeRuns
mod InventoryRuns
mod RpcRuns
mod SuiteRuns
