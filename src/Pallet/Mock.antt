-- ===== src/Pallet/Mock.antt =====
-- The mock runtime `Test` of pallets/template/src/mock.rs: its pallets, its configuration and what it
-- makes of the template pallet. What the code takes from FRAME and from sp_io is a parameter.
pub mod Suite
use substrate_fabric_integra.Base.{ℕ, ⊤, String, Bool, true, Option, some, List, [], ◌∷◌}
use substrate_fabric_integra.Base.Effect.{Result, ok, err}
use substrate_fabric_integra.Base.Outcome.{Failure, panicked}
use substrate_fabric_integra.Pallet.Frame.{Event}
use substrate_fabric_integra.Pallet.Call.{Call}
use substrate_fabric_integra.Pallet.Weights.{Weights, DbWeight, unit_weight}
use substrate_fabric_integra.Pallet.Config.{TemplateConfig}
use substrate_fabric_integra.Pallet.Composition.{Composition}

-- `construct_runtime!`, which numbers the pallets in order
pub data TestPallet : Type 0 where
  system template_module : TestPallet

unfoldable pub test_index : TestPallet → ℕ
test_index system = 0
test_index template_module = 1

unfoldable pub test_name : TestPallet → String
test_name system = "System"
test_name template_module = "TemplateModule"

-- What FRAME, sp_core and sp_runtime give the mock.
pub record TestFrame : Type 1 where
  pub H256 : Type 0
  pub BlakeTwo256 : Type 0
  pub PalletInfo : Type 0
  -- `frame_system::mocking::MockBlock<Test>`
  pub MockBlock : Type 0
  pub Origin : Type 0
  pub DispatchError : Type 0
  pub SystemEvent : Type 0
  pub SystemCall : Type 0
  -- `frame_system::ensure_signed` and `RuntimeOrigin::signed`
  pub ensure_signed : Origin → Result DispatchError ℕ
  pub signed : ℕ → Origin
  -- `DispatchError::Module`, with the pallet's index and the variant's
  pub of_module : (index error : ℕ) → DispatchError

-- `frame_system::Config`; `()` is `⊤`.
pub record TestConfig : Type 1 where
  pub OverarchingCall : Type 0
  pub base_call_filter : OverarchingCall → Bool
  pub BlockWeights : Type 0
  pub BlockLength : Type 0
  pub DbWeight : Type 0
  pub OverarchingOrigin : Type 0
  pub Nonce : Type 0
  pub Hash : Type 0
  pub Hashing : Type 0
  pub AccountId : Type 0
  pub lookup : AccountId → Option AccountId
  pub Block : Type 0
  pub OverarchingEvent : Type 0
  pub hash_count : ℕ
  pub Version : Type 0
  pub PalletInfo : Type 0
  pub AccountData : Type 0
  pub OnNewAccount : Type 0
  pub OnKilledAccount : Type 0
  pub SystemWeightInfo : Type 0
  pub prefix : ℕ
  pub OnSetCode : Type 0
  pub max_consumers : ℕ

module _ (T : TestFrame) where
  abbrev pub TestEventOf : TestPallet → Type 0
  TestEventOf system = T.SystemEvent
  TestEventOf template_module = Event ℕ

  abbrev TestCallOf : TestPallet → Type 0
  TestCallOf system = T.SystemCall
  TestCallOf template_module = Call

  abbrev pub test_config : TestConfig
  test_config = record {
    OverarchingCall = (p : TestPallet) × TestCallOf p;
    base_call_filter = λ _. true;
    BlockWeights = ⊤;
    BlockLength = ⊤;
    DbWeight = ⊤;
    OverarchingOrigin = T.Origin;
    Nonce = ℕ;
    Hash = T.H256;
    Hashing = T.BlakeTwo256;
    AccountId = ℕ;
    lookup = some;
    Block = T.MockBlock;
    OverarchingEvent = (p : TestPallet) × TestEventOf p;
    hash_count = 250;
    Version = ⊤;
    PalletInfo = T.PalletInfo;
    AccountData = ⊤;
    OnNewAccount = ⊤;
    OnKilledAccount = ⊤;
    SystemWeightInfo = ⊤;
    prefix = 42;
    OnSetCode = ⊤;
    max_consumers = 16;
  }

  -- `pallet_template::Config`, with the weights that `()` stands for
  abbrev pub test_template_config : (W : Weights) → DbWeight W → TemplateConfig W
  test_template_config W rocks_db_weight = record {
    OverarchingEvent = test_config.OverarchingEvent;
    weight_info = unit_weight W rocks_db_weight;
  }

  abbrev own_event_of : test_config.OverarchingEvent → List (Event test_config.AccountId)
  own_event_of (template_module, e) = e ∷ []
  own_event_of (system, _) = []

  -- `enum Test`
  abbrev pub test : Composition
  test = record {
    AccountId = test_config.AccountId;
    Origin = test_config.OverarchingOrigin;
    DispatchError = T.DispatchError;
    OverarchingEvent = test_config.OverarchingEvent;
    ensure_signed = T.ensure_signed;
    of_module = T.of_module;
    own_name = test_name template_module;
    own_index = test_index template_module;
    into_event = λ e. (template_module, e);
    own_event = own_event_of;
  }

-- `GenesisConfig::<Test>::default().build_storage().unwrap()`: the building of the storage is
-- FRAME's.
unfoldable pub new_test_ext : {State : Type 0} → Result String State → Result (Failure String) State
new_test_ext (ok genesis) = ok genesis
new_test_ext (err e) = err (panicked e)
