-- ===== src/Command/Run.antt =====
-- `run` of node/src/command.rs: one subcommand, or the node itself.
use substrate_fabric_integra.Base.{⊤, Bool, Option, none, some, [], if◌then◌else◌}
use substrate_fabric_integra.Node.Trace.{
  BenchmarkCmd, pallet, block, storage, overhead, extrinsic, machine, Subcommand, key, build_spec,
  check_block, export_blocks, export_state, import_blocks, purge_chain, revert, benchmark,
  try_runtime, chain_info, create_runner, benchmark_data, run_until_exit, run_command,
}
use substrate_fabric_integra.Node.Host.{
  Types, Configuration, Input, Host, M, input, cli, config_only, client_only, spec_and_network,
  client_and_queue, client_and_database, client_and_spec, database_only, client_and_backend,
  benchmark_storage, benchmark_overhead, benchmark_extrinsic, config_and_hardware, AuxRevert, ◌>>=◌,
  ◌>>◌, raise, try_cli,
}
use substrate_fabric_integra.Base.Effect.{ok, err}
use substrate_fabric_integra.Benchmarking.Extrinsic.{remark_builder}
use substrate_fabric_integra.Command.Factory.{ext_factory}
use substrate_fabric_integra.Service.Partial.{new_partial}
use substrate_fabric_integra.Service.Full.{new_full}

-- The cargo features that the code tests.
pub record Features : Type 0 where
  pub runtime_benchmarks : Bool
  pub try_runtime : Bool

module _ (T : Types) (H : Host T) (features : Features) where
  -- `cli.create_runner(cmd)?`
  abbrev runner : M T (Configuration T)
  runner = try_cli create_runner H.new_runner

  -- `cmd.run(…)`
  abbrev perform : Subcommand → Input T → M T ⊤
  perform cmd inputs = try_cli (run_command cmd) (λ tr. H.command tr cmd inputs)

  abbrev inherent_data : M T T.InherentData
  inherent_data = try_cli benchmark_data H.inherent_benchmark_data

  -- The closure of `revert`, which leaves the backend aside.
  abbrev pub aux_revert : AuxRevert T
  aux_revert client _ blocks = elim (H.grandpa_revert client blocks) [
    | ok _ ↦ ok tt
    | err e ↦ err e
  ]

  unfoldable pub run_benchmark : BenchmarkCmd → Configuration T → M T ⊤
  run_benchmark pallet config =
      if features.runtime_benchmarks
      then perform (benchmark pallet) (config_only config)
      else raise (
          input
            "Runtime benchmarking wasn't enabled when building the node. You can enable it with `--features runtime-benchmarks`.")
  run_benchmark block config = do
    parts ← new_partial T H config
    perform (benchmark block) (client_only parts.client)
  run_benchmark storage config =
      let measure : M T ⊤ = do
        parts ← new_partial T H config
        let db = H.expose_db parts.backend in
            let exposed = H.expose_storage parts.backend in
            perform (benchmark storage) (benchmark_storage config parts.client db exposed)
      in if features.runtime_benchmarks
        then measure
        else raise
            (input "Storage benchmarking can be enabled with `--features runtime-benchmarks`.")
  run_benchmark overhead config = do
    parts ← new_partial T H config
    let ext_builder = remark_builder T.benchmarking (H.benchmark_client parts.client)
    inherents ← inherent_data
    perform (benchmark overhead) (benchmark_overhead config parts.client inherents [] ext_builder)
  run_benchmark extrinsic config = do
    parts ← new_partial T H config
    let builders = ext_factory T.benchmarking (H.benchmark_client parts.client) H.alice
    inherents ← inherent_data
    perform (benchmark extrinsic) (benchmark_extrinsic parts.client inherents [] builders)
  run_benchmark machine config =
      perform (benchmark machine) (config_and_hardware config H.reference_hardware)

  unfoldable pub run : Option Subcommand → M T ⊤
  run (some key) = perform key cli
  run (some build_spec) = do
    config ← runner
    perform build_spec (spec_and_network config.chain_spec config.network)
  run (some check_block) = do
    config ← runner
    parts ← new_partial T H config
    perform check_block (client_and_queue parts.client parts.import_queue)
  run (some export_blocks) = do
    config ← runner
    parts ← new_partial T H config
    perform export_blocks (client_and_database parts.client config.database)
  run (some export_state) = do
    config ← runner
    parts ← new_partial T H config
    perform export_state (client_and_spec parts.client config.chain_spec)
  run (some import_blocks) = do
    config ← runner
    parts ← new_partial T H config
    perform import_blocks (client_and_queue parts.client parts.import_queue)
  run (some purge_chain) = do config ← runner; perform purge_chain (database_only config.database)
  run (some revert) = do
    config ← runner
    parts ← new_partial T H config
    perform revert (client_and_backend parts.client parts.backend (some aux_revert))
  run (some (benchmark cmd)) = do config ← runner; run_benchmark cmd config
  run (some try_runtime) =
      if features.try_runtime
      then raise (input H.try_runtime_notice)
      else raise (
          input
            "TryRuntime wasn't enabled when building the node. You can enable it with `--features try-runtime`.")
  run (some chain_info) = do config ← runner; perform chain_info (config_only config)
  run none = do config ← runner; new_full T H config; try_cli run_until_exit H.run_to_exit
