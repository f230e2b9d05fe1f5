-- ===== src/Lib.antt =====
-- A Substrate node with a template pallet, and the Hyperledger Fabric chaincode beside it.
--
-- The program is a Substrate solochain. Its runtime (runtime/src/lib.rs) composes eight pallets, one
-- of them its own (pallets/template). The node (node/src) reads a command line, loads a chain
-- specification with a genesis state, and either runs a subcommand or builds the service: the client,
-- the consensus engines Aura and GRANDPA, the network and the RPC module. A chaincode in Go
-- (interoperability_fabric.go) keeps assets in Fabric's world state.
--
-- Which file models what:
--   Base            shared names and lemmas. `Effect` has Rust's `Result` and code that reads and
--                   writes a state and may return early; `Outcome` adds panics.
--   Pallet          pallets/template/src/lib.rs and weights.rs. `Frame` is what FRAME gives the pallet,
--                   `Dispatchables` has `do_something` and `cause_error`, `Call` the calls with
--                   their indices and sequences of extrinsics, `Spec` the pallet without FRAME;
--                   `Weights` both implementations of `WeightInfo`, and `Composition` what a runtime
--                   makes of the storage item, the event and the error. `Benches` has benchmarking.rs,
--                   and `Mock` the runtime of mock.rs, with tests.rs in `Mock.Suite`.
--   Runtime         runtime/src/lib.rs: `Params` has the constants, `Pallets` the pallets with their
--                   indices, `Calls` the bytes of a `RuntimeCall`, `Routing` its dispatch, with
--                   calls of sudo in `Sudo`, `Composed` the names, events and errors of the
--                   runtime and its chains, `Blocks` the chains that a node makes and imports by the APIs,
--                   over what `Executive` documents, `Applied` their
--                   extrinsics, `Extensions` has `SignedExtra`, `Limits` `BlockWeights` and
--                   `BlockLength`, `Fees` the payment of fees, `Configs` the other
--                   configurations, `Types` the type aliases, and `Api`, with `PaymentApi`,
--                   `GenesisApi`, `BenchmarkApi` and `TryApi`, what `impl_runtime_apis!`
--                   implements. `Genesis` begins a chain from a specification.
--   ChainSpec       node/src/chain_spec.rs: `Keys` (`get_from_seed`, `get_account_id_from_seed`,
--                   `authority_keys_from_seed`), `Genesis` (`testnet_genesis`), `Config`
--                   (`development_config`, `local_testnet_config`). `Accepted` says which genesis states
--                   the pallets take.
--   Benchmarking    node/src/benchmarking.rs: `Period` has the mortality of an extrinsic,
--                   `Extrinsic` has `create_benchmark_extrinsic` and the builders, `Accepted` what the
--                   signed extensions of the runtime check, `Payload` the bytes that are signed, `Replay`
--                   which other chains take them, `Submitted` what becomes of them in a block of
--                   the runtime, `Budget` what they take of it, and `Taken` both.
--   Node            the effects of the node, and Substrate as the node calls it. A trace holds the
--                   effects so far, the latest first; a call that can fail may answer as it likes at
--                   any time. `Follows`, `Completes` have the rules by which code is shown to take its
--                   effects in order.
--   Service         node/src/service.rs: `Partial` has `new_partial`, in the pieces before and after
--                   the client is built, and `Full` has `new_full` in its stages: genesis hash, network,
--                   offchain worker, RPC tasks, authoring, finality, start of the network.
--                   `Inherents` and `RpcBuilder` have the closures that it hands to Substrate, and
--                   `Clock` the runtime's checks on the time of a block.
--   Command         node/src/command.rs: `LoadSpec` has `load_spec`, `Run` has `run` with every
--                   subcommand of node/src/cli.rs and every benchmark; the cargo features are a record.
--                   What a command is handed is an `Input` of `Node.Host`. `Factory` has the factory
--                   of benchmark extrinsics, `Cli` the metadata and `main` of node/src/main.rs.
--   Rpc             node/src/rpc.rs: `create_full` merges two modules.
--   Chaincode       interoperability_fabric.go: `Stub` is Fabric and the JSON package, `Contract` the
--                   methods of `SmartContract`, `Ledger` what they promise without Fabric.
--   Tests           the theorems at concrete inputs.
--
-- What is not code of the repository is a parameter: FRAME, sp_core's keys, Substrate's client and its
-- services, jsonrpsee, Fabric's stub. What the code relies on is in records of laws, named IsLawful,
-- IsSound, Costs and IsReliable, which the tests fill with small concrete parts. IsSound is about the
-- seeds of the specifications alone. A call of FRAME's pallets is ordinary if it writes no raw storage,
-- as `system.set_storage` does under the root origin, and sudo's if the call that it holds is ordinary:
-- what is shown of the template pallet's storage is for chains of ordinary calls. Where FRAME
-- rounds a part of a limit, only parts that are whole numbers are used.
--
-- Bounds: a machine integer is a natural number with its bound written out (`u32_max`, `u64_max`,
-- `u128_max`), a cast wraps. The doubling of Rust's `checked_next_power_of_two` has fuel 32,
-- one step for each power of two in a u32; `Benchmarking.Period` shows that it is enough. Nothing else
-- has fuel.
--
-- Not modelled: Aura's authorities and the hooks of the system pallet's configuration, which name
-- types only, and the configuration of pallet_contracts, which repeats bounds where types have to be;
-- the parsing of arguments, which clap derives; the network configuration, telemetry's contents and
-- Prometheus; build scripts; the chaincode's contents of error messages. Where `TransferAsset` has
-- an empty branch without a return, the model answers no text. A runtime call is dispatched with
-- the origin that its extrinsic got; the checks of the extrinsic are those of `Benchmarking`, and
-- in `Blocks` Executive's.
pub mod Base
pub mod Pallet
pub mod Runtime
pub mod ChainSpec
pub mod Benchmarking
pub mod Node
pub mod Service
pub mod Command
pub mod Rpc
pub mod Chaincode
pub mod Tests
