-- ===== src/Node/Trace.antt =====
-- The effects of node/src/service.rs and node/src/command.rs, in the order in which they happen.
use substrate_fabric_integra.Base.{
  ℕ, suc, String, Bool, true, false, Option, List, [], ◌∷◌, if◌then◌else◌,
}

-- `BenchmarkCmd`, which is Substrate's, by the names that the code matches on
pub data BenchmarkCmd : Type 0 where
  pallet block storage overhead extrinsic machine : BenchmarkCmd

-- `enum Subcommand` of node/src/cli.rs
pub data Subcommand : Type 0 where
  key build_spec check_block export_blocks export_state import_blocks purge_chain revert :
      Subcommand
  benchmark : BenchmarkCmd → Subcommand
  try_runtime chain_info : Subcommand

-- A task handed to the task manager: by `spawn_handle` or by `spawn_essential_handle`, and with
-- `spawn` or with `spawn_blocking`.
pub record Task : Type 0 where
  pub name : String
  pub group : Option String
  pub essential : Bool
  pub blocking : Bool

pub data Effect : Type 0 where
  telemetry_worker : (buffer : ℕ) → Effect
  full_parts transaction_pool import_queue : Effect
  grandpa_block_import : (justification_period : ℕ) → Effect
  read_genesis_hash build_network rpc_tasks read_slot_duration : Effect
  start_aura : (force_authoring : Bool) → Effect
  grandpa_voter : (justification_period : ℕ) → (keystore : Bool) → Effect
  spawn : Task → Effect
  start_network : Effect
  create_runner benchmark_data run_until_exit : Effect
  run_command : Subcommand → Effect

-- The latest effect stands first.
abbrev pub Trace : Type 0
Trace = List Effect

-- The tasks of a trace, the latest first.
abbrev pub spawned : Trace → List Task
spawned [] = []
spawned (spawn t ∷ tr) = t ∷ spawned tr
spawned (_ ∷ tr) = spawned tr

-- How often an effect of a kind occurs.
abbrev pub count : (Effect → Bool) → Trace → ℕ
count p [] = 0
count p (e ∷ tr) = if p e then suc (count p tr) else count p tr

abbrev pub is_start_network : Effect → Bool
is_start_network start_network = true
is_start_network _ = false

abbrev pub is_run_command : Effect → Bool
is_run_command (run_command _) = true
is_run_command _ = false
