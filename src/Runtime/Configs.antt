-- ===== src/Runtime/Configs.antt =====
-- How runtime/src/lib.rs configures the system, GRANDPA, timestamp, balances, sudo and template
-- pallets. What names a type of FRAME's is a parameter; `()` in the place of a bound is none.
-- `OwnWeights` is a pallet's `WeightInfo`.
use substrate_fabric_integra.Base.{ℕ, ⊤, Option, none}
use substrate_fabric_integra.Pallet.Weights.{Weights, DbWeight, substrate_weight}
use substrate_fabric_integra.Pallet.Config.{TemplateConfig}
use substrate_fabric_integra.Runtime.Calls.{Others, RuntimeCall}
use substrate_fabric_integra.Runtime.Params.{
  RuntimeVersion, version, block_hash_count, ss58_prefix, existential_deposit,
  grandpa_max_authorities, minimum_period, default_millisecs_per_block,
}
use substrate_fabric_integra.Runtime.Pallets.{RuntimePallet, system, aura}
use substrate_fabric_integra.Runtime.Limits.{
  WeightLimits, LengthLimits, FrameLimits, block_weights, block_length,
}
use substrate_fabric_integra.Runtime.ApiFrame.{RuntimeTypes}

-- `frame_system::Config`
pub record SystemConfig (W : Weights) : Type 1 where
  pub Block : Type 0
  pub weights : WeightLimits W
  pub lengths : LengthLimits
  pub AccountId : Type 0
  pub Nonce : Type 0
  pub Hash : Type 0
  pub hash_count : ℕ
  pub db_weight : DbWeight W
  pub runtime_version : RuntimeVersion
  pub AccountData : Type 0
  pub prefix : ℕ
  pub max_consumers : ℕ

-- `RocksDbWeight` and `pallet_balances::AccountData` are FRAME's.
module _ (W : Weights) (F : FrameLimits W) (T : RuntimeTypes) (rocks_db_weight : DbWeight W)
    (AccountDataOf : Type 0 → Type 0) where
  unfoldable pub system_config : SystemConfig W
  unfolding block_weights block_length
  system_config = record {
    Block = T.Block;
    weights = block_weights W F;
    lengths = block_length W F;
    AccountId = T.AccountId;
    Nonce = ℕ;
    Hash = T.Hash;
    hash_count = block_hash_count;
    db_weight = rocks_db_weight;
    runtime_version = version;
    AccountData = AccountDataOf ℕ;
    prefix = ss58_prefix;
    max_consumers = 16;
  }

-- `pallet_grandpa::Config`, without equivocation reports
pub record GrandpaConfig : Type 1 where
  pub OverarchingEvent : Type 0
  pub OwnWeights : Type 0
  pub max_authorities : ℕ
  pub max_nominators : ℕ
  pub max_set_id_session_entries : ℕ
  pub KeyOwnerProof : Type 0
  pub EquivocationReportSystem : Type 0

-- `E` is the runtime's events.
abbrev pub grandpa_config : Type 0 → GrandpaConfig
grandpa_config E = record {
  OverarchingEvent = E;
  OwnWeights = ⊤;
  max_authorities = grandpa_max_authorities;
  max_nominators = 0;
  max_set_id_session_entries = 0;
  KeyOwnerProof = ⊥;
  EquivocationReportSystem = ⊤;
}

-- `pallet_timestamp::Config`
pub record TimestampConfig : Type 1 where
  pub Moment : Type 0
  pub on_timestamp_set : RuntimePallet
  pub least_period : ℕ
  pub OwnWeights : Type 0

unfoldable pub timestamp_config : TimestampConfig
unfolding minimum_period
timestamp_config = record {
  Moment = ℕ;
  on_timestamp_set = aura;
  least_period = minimum_period default_millisecs_per_block;
  OwnWeights = ⊤;
}

-- `pallet_balances::Config`
pub record BalancesConfig : Type 1 where
  pub max_locks : ℕ
  pub max_reserves : Option ℕ
  pub reserve_identifier_bytes : ℕ
  pub Balance : Type 0
  pub OverarchingEvent : Type 0
  pub DustRemoval : Type 0
  pub deposit : ℕ
  pub account_store : RuntimePallet
  pub OwnWeights : Type 0
  pub FreezeIdentifier : Type 0
  pub max_freezes : Option ℕ
  pub HoldReason : Type 0
  pub FreezeReason : Type 0

-- `pallet_balances::weights::SubstrateWeight` is FRAME's, as is that of sudo.
abbrev pub balances_config : (E SubstrateWeight : Type 0) → BalancesConfig
balances_config E SubstrateWeight = record {
  max_locks = 50;
  max_reserves = none;
  reserve_identifier_bytes = 8;
  Balance = ℕ;
  OverarchingEvent = E;
  DustRemoval = ⊤;
  deposit = existential_deposit;
  account_store = system;
  OwnWeights = SubstrateWeight;
  FreezeIdentifier = ⊤;
  max_freezes = none;
  HoldReason = ⊤;
  FreezeReason = ⊤;
}

-- `pallet_sudo::Config`
pub record SudoConfig : Type 1 where
  pub OverarchingEvent : Type 0
  pub OverarchingCall : Type 0
  pub OwnWeights : Type 0

abbrev pub sudo_config : Others → (E SubstrateWeight : Type 0) → SudoConfig
sudo_config O E SubstrateWeight = record {
  OverarchingEvent = E;
  OverarchingCall = RuntimeCall O;
  OwnWeights = SubstrateWeight;
}

-- `pallet_template::Config`
abbrev pub template_config : (E : Type 0) (W : Weights) → DbWeight W → TemplateConfig W
template_config E W db = record { OverarchingEvent = E; weight_info = substrate_weight W db }
