-- ===== src/Command/Cli.antt =====
-- `Cli` of node/src/cli.rs, `impl SubstrateCli for Cli` of node/src/command.rs and `main` of
-- node/src/main.rs. The texts that
-- cargo sets when the node is built are parameters.
use substrate_fabric_integra.Base.{ℕ, ⊤, String, Option, List}
use substrate_fabric_integra.ChainSpec.Keys.{Keys, Outcome}
use substrate_fabric_integra.ChainSpec.Config.{ChainSpec}
use substrate_fabric_integra.Node.Trace.{Subcommand}
use substrate_fabric_integra.Node.Host.{Types, Host, M}
use substrate_fabric_integra.Command.LoadSpec.{load_spec}
use substrate_fabric_integra.Command.Run.{Features, run}

-- `env!`
pub record CargoEnv : Type 0 where
  pub substrate_cli_impl_version : String
  pub cargo_pkg_description : String
  pub cargo_pkg_authors : String

pub record SubstrateCli (K : Keys) : Type 0 where
  pub impl_name : String
  pub impl_version : String
  pub description : String
  pub author : String
  pub support_url : String
  pub copyright_start_year : ℕ
  pub load_spec_of : String → Outcome (ChainSpec K)

module _ (K : Keys) (wasm_binary : Option (List ℕ))
    (from_json_file : String → Outcome (ChainSpec K)) where
  unfoldable pub substrate_cli : CargoEnv → SubstrateCli K
  unfolding load_spec
  substrate_cli env = record {
    impl_name = "Substrate Node";
    impl_version = env.substrate_cli_impl_version;
    description = env.cargo_pkg_description;
    author = env.cargo_pkg_authors;
    support_url = "support.anonymous.an";
    copyright_start_year = 2017;
    load_spec_of = load_spec K wasm_binary from_json_file;
  }

-- `struct Cli` of node/src/cli.rs; what runs the node without a subcommand is sc_cli's.
pub record Cli (RunCmd : Type 0) : Type 0 where
  pub subcommand : Option Subcommand
  pub run_cmd : RunCmd

-- `main` runs the subcommand that clap parsed.
module _ (T : Types) (H : Host T) (features : Features) where
  unfoldable pub main : {RunCmd : Type 0} → Cli RunCmd → M T ⊤
  unfolding run
  main parsed = run T H features parsed.subcommand
