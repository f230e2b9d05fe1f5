-- ===== src/Tests/NodeRuns.antt =====
-- The service and the command line, run with parts that can all be had.
use substrate_fabric_integra.Base.{
  none, ◌≢◌, ⊤, ◌≡◌, refl, sym, Bool, true, false, some, [], ◌∷◌, ◌++◌,
}
use substrate_fabric_integra.Base.Effect.{ok}
use substrate_fabric_integra.Base.Outcome.{ok-injective}
use substrate_fabric_integra.Tests.ClientRuns.{toy_host, toy_client}
use substrate_fabric_integra.Node.Trace.{
  run_until_exit, create_runner, benchmark, storage, count, is_run_command, check_block,
  start_network,
}
use substrate_fabric_integra.Node.Host.{Types, Configuration, Host}
use substrate_fabric_integra.Node.Follows.{Ends}
use substrate_fabric_integra.Node.Completes.{EndsBy}
use substrate_fabric_integra.Service.Full.{new_full}
use substrate_fabric_integra.Service.Laws.{full_effects, new_full_ends}
use substrate_fabric_integra.Service.Total.{IsReliable, new_full_succeeds}
use substrate_fabric_integra.Command.Run.{Features, run}
use substrate_fabric_integra.Command.Laws.{run_node-Ends, Reads, run_effects, run-Ends}
use substrate_fabric_integra.Command.Safety.{run_disabled, run_succeeds}

-- Every part is the only one of its kind; a role is whether the node is an authority.
abbrev types : Types
types = record {
  ServiceError = ⊤;
  CliError = ⊤;
  Role = Bool;
  Worker = ⊤;
  Telemetry = ⊤;
  TelemetryHandle = ⊤;
  Client = ⊤;
  Backend = ⊤;
  Keystore = ⊤;
  SelectChain = ⊤;
  Pool = ⊤;
  BlockImport = ⊤;
  LinkHalf = ⊤;
  ImportQueue = ⊤;
  Network = ⊤;
  SyncService = ⊤;
  Hash = ⊤;
  ProtocolName = ⊤;
  NotificationService = ⊤;
  InherentData = ⊤;
  DigestItem = ⊤;
  DatabaseSource = ⊤;
  ChainSpec = ⊤;
  NetworkConfiguration = ⊤;
  Db = ⊤;
  Storage = ⊤;
  Hardware = ⊤;
  benchmarking = toy_host;
}

abbrev authority : Configuration types
authority = record {
  telemetry_endpoints = some ("wss://telemetry.polkadot.io" ∷ []);
  role = true;
  offchain_worker_enabled = true;
  force_authoring = false;
  disable_grandpa = false;
  node_name = "Alice";
  database = tt;
  chain_spec = tt;
  network = tt;
}

abbrev host : Host types
host = record {
  is_authority = λ role. role;
  new_worker = λ _ _. ok tt;
  new_telemetry = λ _ _. tt;
  handle = λ _. tt;
  new_full_parts = λ _ _ _. ok (record { client = tt; backend = tt; keystore = tt });
  longest_chain = λ _. tt;
  new_pool = λ _ _. tt;
  grandpa_import = λ _ _ _ _ _. ok (tt, tt);
  aura_import_queue = λ _ _ _ _. ok tt;
  block_hash_zero = λ _ _. ok (some tt);
  protocol_standard_name = λ _ _. tt;
  grandpa_notifications = λ _. tt;
  new_network = λ _ _ _ _ _ _ _. ok (tt, tt);
  spawn_rpc_tasks = λ _ _ _ _ _. ok tt;
  slot_duration = λ _ _. ok 6000;
  aura = λ _ _. ok tt;
  voter = λ _ _. ok tt;
  new_runner = λ _. ok authority;
  inherent_benchmark_data = λ _. ok tt;
  benchmark_client = λ _. toy_client;
  alice = 0;
  expose_db = λ _. tt;
  expose_storage = λ _. tt;
  grandpa_revert = λ _ _. ok tt;
  reference_hardware = tt;
  try_runtime_notice = "try-runtime-cli";
  run_to_exit = λ _. ok tt;
  command = λ _ _ _. ok tt;
}

host-IsReliable : IsReliable host
host-IsReliable = record {
  worker = λ _ _. (tt, refl);
  parts = λ _ _ _. (record { client = tt; backend = tt; keystore = tt }, refl);
  import_block = λ _ _ _ _ _. ((tt, tt), refl);
  queue = λ _ _ _ _. (tt, refl);
  genesis = λ _ _. (tt, refl);
  network = λ _ _ _ _ _ _ _. ((tt, tt), refl);
  rpc = λ _ _ _ _ _. (tt, refl);
  slot = λ _ _. (6000, refl);
  author = λ _ _. (tt, refl);
  vote = λ _ _. (tt, refl);
}

abbrev plain_build : Features
plain_build = record { runtime_benchmarks = false; try_runtime = false }

host-Reads : Reads host authority
host-Reads past c answer = sym (ok-injective answer)

new_full_succeeds_example :
    new_full types host authority [] ≡ (ok tt, start_network ∷ (full_effects host authority ++ []))
new_full_succeeds_example = new_full_succeeds types host host-IsReliable authority []

new_full_ends_example :
    EndsBy start_network (full_effects host authority) [] (new_full types host authority [])
new_full_ends_example = new_full_ends types host authority []

run-Ends_example :
    Ends
      (run_effects plain_build authority.telemetry_endpoints check_block)
      []
      (run types host plain_build (some check_block) [])
run-Ends_example = run-Ends types host plain_build authority host-Reads check_block []

run_succeeds_example :
    run types host plain_build (some check_block) []
    ≡ (ok tt, run_effects plain_build authority.telemetry_endpoints check_block ++ [])
run_succeeds_example =
    run_succeeds types host plain_build authority host-IsReliable (λ _. refl) (λ _. (tt, refl))
      (λ _ _ _. (tt, refl)) check_block refl []

run_node-Ends_example :
    Ends
      (run_until_exit ∷ start_network ∷ (full_effects host authority ++ (create_runner ∷ [])))
      []
      (run types host plain_build none [])
run_node-Ends_example = run_node-Ends types host plain_build authority host-Reads []

run_disabled_example :
    ((run types host plain_build (some (benchmark storage)) []).0 ≢ ok tt)
    × (count is_run_command (run types host plain_build (some (benchmark storage)) []).1 ≡ 0)
run_disabled_example = run_disabled types host plain_build (benchmark storage) [] refl
