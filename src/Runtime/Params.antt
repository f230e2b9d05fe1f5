-- ===== src/Runtime/Params.antt =====
-- The constants and the pallet parameters of runtime/src/lib.rs.
use substrate_fabric_integra.Base.{ℕ, String, List, [], ◌*◌, ◌/◌, ◌%◌}

-- The block time, which the source says may be adjusted, is a parameter of what is derived from it.
module _ (millisecs_per_block : ℕ) where
  unfoldable pub slot_duration : ℕ
  slot_duration = millisecs_per_block

  -- `MINUTES`, `HOURS` and `DAYS`, as numbers of blocks; the cast to u32 wraps
  unfoldable pub minutes : ℕ
  minutes = 60000 / (millisecs_per_block % 4294967296)

  unfoldable pub hours : ℕ
  unfolding minutes
  hours = minutes * 60

  unfoldable pub days : ℕ
  unfolding hours
  days = hours * 24

  -- `pallet_timestamp::Config::MinimumPeriod`
  unfoldable pub minimum_period : ℕ
  unfolding slot_duration
  minimum_period = slot_duration / 2

-- `MILLISECS_PER_BLOCK`
abbrev pub default_millisecs_per_block : ℕ
default_millisecs_per_block = 6000

abbrev pub block_hash_count : ℕ
block_hash_count = 2400

abbrev pub ss58_prefix : ℕ
ss58_prefix = 42

abbrev pub existential_deposit : ℕ
existential_deposit = 500

-- `pallet_aura::Config::MaxAuthorities` and `pallet_grandpa::Config::MaxAuthorities`
abbrev pub aura_max_authorities : ℕ
aura_max_authorities = 32

abbrev pub grandpa_max_authorities : ℕ
grandpa_max_authorities = 32

-- `VERSION`, without the list of APIs that FRAME makes
pub record RuntimeVersion : Type 0 where
  pub spec_name : String
  pub impl_name : String
  pub authoring_version : ℕ
  pub spec_version : ℕ
  pub impl_version : ℕ
  pub transaction_version : ℕ
  pub state_version : ℕ

abbrev pub version : RuntimeVersion
version = record {
  spec_name = "solochain-template-runtime";
  impl_name = "solochain-template-runtime";
  authoring_version = 1;
  spec_version = 100;
  impl_version = 1;
  transaction_version = 1;
  state_version = 1;
}

-- `NativeVersion`, with the authoring versions that it takes besides its own
pub record NativeVersion : Type 0 where
  pub runtime_version : RuntimeVersion
  pub can_author_with : List ℕ

abbrev pub native_version : NativeVersion
native_version = record { runtime_version = version; can_author_with = [] }
