-- ===== src/Node/Host.antt =====
-- The parts of Substrate that node/src/service.rs and node/src/command.rs call. Each call that can
-- fail is given the trace so far, so that it may answer as it likes at any time.
use substrate_fabric_integra.Base.{ℕ, ⊤, String, Bool, Option, List, ◌∷◌}
use substrate_fabric_integra.Base.Effect.{Result, ok, err}
use substrate_fabric_integra.Benchmarking.Host as Benchmarking
use substrate_fabric_integra.Benchmarking.Extrinsic.{ExtrinsicBuilder}
use substrate_fabric_integra.Node.Trace.{Effect, Trace, Subcommand}

pub record Types : Type 1 where
  pub ServiceError : Type 0
  pub CliError : Type 0
  pub Role : Type 0
  pub Worker : Type 0
  pub Telemetry : Type 0
  pub TelemetryHandle : Type 0
  pub Client : Type 0
  pub Backend : Type 0
  pub Keystore : Type 0
  pub SelectChain : Type 0
  pub Pool : Type 0
  pub BlockImport : Type 0
  pub LinkHalf : Type 0
  pub ImportQueue : Type 0
  pub Network : Type 0
  pub SyncService : Type 0
  pub Hash : Type 0
  pub ProtocolName : Type 0
  pub NotificationService : Type 0
  pub InherentData : Type 0
  pub DigestItem : Type 0
  pub DatabaseSource : Type 0
  pub ChainSpec : Type 0
  pub NetworkConfiguration : Type 0
  pub Db : Type 0
  pub Storage : Type 0
  pub Hardware : Type 0
  -- what node/src/benchmarking.rs calls
  pub benchmarking : Benchmarking.Host

module _ (T : Types) where
  open T use {
    ServiceError, CliError, Role, Worker, Telemetry, TelemetryHandle, Client, Backend, Keystore,
    SelectChain, Pool, BlockImport, LinkHalf, ImportQueue, Network, SyncService, Hash, ProtocolName,
    NotificationService, InherentData, DigestItem, DatabaseSource, ChainSpec, NetworkConfiguration,
    Db, Storage, Hardware, benchmarking,
  }

  -- The fields of `sc_service::Configuration` that the code reads.
  pub record Configuration : Type 0 where
    pub telemetry_endpoints : Option (List String)
    pub role : Role
    pub offchain_worker_enabled : Bool
    pub force_authoring : Bool
    pub disable_grandpa : Bool
    pub node_name : String
    pub database : DatabaseSource
    pub chain_spec : ChainSpec
    pub network : NetworkConfiguration

  -- The four parts of `new_full_parts`; the task manager is the trace.
  pub record FullParts : Type 0 where
    pub client : Client
    pub backend : Backend
    pub keystore : Keystore

  -- `sc_service::PartialComponents`
  pub record PartialComponents : Type 0 where
    pub client : Client
    pub backend : Backend
    pub import_queue : ImportQueue
    pub keystore : Keystore
    pub select_chain : SelectChain
    pub transaction_pool : Pool
    pub block_import : BlockImport
    pub grandpa_link : LinkHalf
    pub telemetry : Option Telemetry

  -- `StartAuraParams`
  pub record AuraParams : Type 0 where
    pub slot_duration : ℕ
    pub client : Client
    pub select_chain : SelectChain
    pub block_import : BlockImport
    pub transaction_pool : Pool
    pub force_authoring : Bool
    pub backoff_authoring_blocks : Option ⊤
    pub keystore : Keystore
    pub sync_service : SyncService
    pub telemetry : Option TelemetryHandle

  -- `sc_consensus_grandpa::Config` and `GrandpaParams`
  pub record GrandpaParams : Type 0 where
    pub gossip_duration : ℕ
    pub justification_generation_period : ℕ
    pub name : Option String
    pub observer_enabled : Bool
    pub keystore : Option Keystore
    pub local_role : Role
    pub protocol_name : ProtocolName
    pub link : LinkHalf
    pub network : Network
    pub sync : SyncService
    pub notification_service : NotificationService
    pub transaction_pool : Pool
    pub telemetry : Option TelemetryHandle

  -- What `revert` is handed for the data of the consensus: a function of the client, the backend and
  -- the number of blocks.
  abbrev pub AuxRevert : Type 0
  AuxRevert = Client → Backend → ℕ → Result ServiceError ⊤

  -- What a subcommand's own `run`, which is Substrate's, is handed.
  pub data Input : Type 0 where
    cli : Input
    spec_and_network : ChainSpec → NetworkConfiguration → Input
    client_and_queue : Client → ImportQueue → Input
    client_and_database : Client → DatabaseSource → Input
    client_and_spec : Client → ChainSpec → Input
    database_only : DatabaseSource → Input
    client_and_backend : Client → Backend → Option AuxRevert → Input
    config_only : Configuration → Input
    client_only : Client → Input
    benchmark_storage : Configuration → Client → Db → Storage → Input
    benchmark_overhead :
        Configuration
        → Client
        → InherentData
        → List DigestItem
        → ExtrinsicBuilder benchmarking
        → Input
    benchmark_extrinsic :
        Client → InherentData → List DigestItem → List (ExtrinsicBuilder benchmarking) → Input
    config_and_hardware : Configuration → Hardware → Input

  pub record Host : Type 0 where
    pub is_authority : Role → Bool
    pub new_worker : Trace → ℕ → Result ServiceError Worker
    pub new_telemetry : Worker → List String → Telemetry
    pub handle : Telemetry → TelemetryHandle
    pub new_full_parts :
        Trace → Configuration → Option TelemetryHandle → Result ServiceError FullParts
    pub longest_chain : Backend → SelectChain
    pub new_pool : Configuration → Client → Pool
    pub grandpa_import :
        Trace
        → Client
        → ℕ
        → SelectChain
        → Option TelemetryHandle
        → Result ServiceError (BlockImport × LinkHalf)
    pub aura_import_queue :
        Trace → BlockImport → Client → Option TelemetryHandle → Result ServiceError ImportQueue
    -- `client.block_hash(0)`
    pub block_hash_zero : Trace → Client → Result ServiceError (Option Hash)
    pub protocol_standard_name : Hash → Configuration → ProtocolName
    pub grandpa_notifications : ProtocolName → NotificationService
    pub new_network :
        Trace
        → Configuration
        → Client
        → Backend
        → Pool
        → ImportQueue
        → LinkHalf
        → Result ServiceError (Network × SyncService)
    pub spawn_rpc_tasks :
        Trace → Configuration → PartialComponents → Network → SyncService → Result ServiceError ⊤
    pub slot_duration : Trace → Client → Result ServiceError ℕ
    pub aura : Trace → AuraParams → Result ServiceError ⊤
    pub voter : Trace → GrandpaParams → Result ServiceError ⊤
    pub new_runner : Trace → Result CliError Configuration
    pub inherent_benchmark_data : Trace → Result CliError InherentData
    -- the client as node/src/benchmarking.rs calls it, and `Sr25519Keyring::Alice.to_account_id()`
    pub benchmark_client : Client → Benchmarking.Client benchmarking
    pub alice : benchmarking.AccountId
    pub expose_db : Backend → Db
    pub expose_storage : Backend → Storage
    -- `sc_consensus_grandpa::revert`
    pub grandpa_revert : Client → ℕ → Result ServiceError ⊤
    -- `SUBSTRATE_REFERENCE_HARDWARE`
    pub reference_hardware : Hardware
    -- `try_runtime_cli::DEPRECATION_NOTICE`
    pub try_runtime_notice : String
    pub run_to_exit : Trace → Result CliError ⊤
    pub command : Trace → Subcommand → Input → Result CliError ⊤

  -- How the code ends early: an error of the service or of a command, an input error with a message,
  -- or a panic.
  pub data Fault : Type 0 where
    service : ServiceError → Fault
    command_line : CliError → Fault
    input : String → Fault
    panic : String → Fault

  abbrev pub M : Type 0 → Type 0
  M A = Trace → Result Fault A × Trace

-- These stay shut in proofs, which go by the rules of `Follows` and `Succeeds`.
module _ {T : Types} where
  infixl 5 ◌>>=◌ ◌>>◌
  unfoldable pub ◌>>=◌ : {A B : Type 0} → M T A → (A → M T B) → M T B
  ◌>>=◌ m f tr = let (r, tr') = m tr in elim r [ ok a ↦ f a tr' | err e ↦ (err e, tr') ]

  unfoldable pub ◌>>◌ : {A B : Type 0} → M T A → M T B → M T B
  unfolding ◌>>=◌
  m >> k = m >>= λ _. k

  module _ {A : Type 0} where
    unfoldable pub pure : A → M T A
    pure a tr = (ok a, tr)

    unfoldable pub raise : Fault T → M T A
    raise e tr = (err e, tr)

    -- A call that can fail, with its effect.
    unfoldable pub try_service : Effect → (Trace → Result T.ServiceError A) → M T A
    try_service e f tr = elim (f tr) [ ok a ↦ (ok a, e ∷ tr) | err x ↦ (err (service x), e ∷ tr) ]

    unfoldable pub try_cli : Effect → (Trace → Result T.CliError A) → M T A
    try_cli e f tr = elim (f tr) [ ok a ↦ (ok a, e ∷ tr) | err x ↦ (err (command_line x), e ∷ tr) ]

  unfoldable pub emit : Effect → M T ⊤
  emit e tr = (ok tt, e ∷ tr)
