-- ===== src/Tests/SuiteRuns.antt =====
-- The pallet's own tests, on the mock runtime over a storage with keys of two texts.
use substrate_fabric_integra.Base.{ℕ, ◌≡◌, refl, true, Option, none, some, []}
use substrate_fabric_integra.Base.Effect.{ok, err}
use substrate_fabric_integra.Pallet.Composition.{Storage}
use substrate_fabric_integra.Pallet.Mock.{TestFrame, test}
use substrate_fabric_integra.Pallet.Mock.Suite.{
  Externalities, IsLawfulExternalities, it_works_for_default_value, correct_error_for_none_value,
  benchmark_tests, suite_passes,
}
use substrate_fabric_integra.Tests.RuntimeRuns.{number_codec, number_codec-IsCodec}
use substrate_fabric_integra.Tests.ToyStorage.{storage_of, storage_of-IsLawful}

abbrev test_frame : TestFrame
test_frame = record {
  H256 = ℕ;
  BlakeTwo256 = Unit;
  PalletInfo = Unit;
  MockBlock = Unit;
  SystemCall = Unit;
  Origin = Option ℕ;
  DispatchError = Option (ℕ × ℕ);
  SystemEvent = ℕ;
  ensure_signed = λ origin. elim origin [ none ↦ err none | some who ↦ ok who ];
  signed = some;
  of_module = λ index error. some (index, error);
}

abbrev test_storage : Storage (test test_frame)
test_storage = storage_of (test test_frame)

-- Errors and events are taken as equal.
abbrev externalities : Externalities test_frame test_storage
externalities = record {
  build_storage = ok (record { block = 0; cells = λ k. none; log = [] });
  set_block_number = λ n s. record s { block = n };
  storage_root = λ s. s.block;
  same_error = λ d e. true;
  same_event = λ d e. true;
  whitelisted_caller = 3;
}

externalities-IsLawful : IsLawfulExternalities test_frame test_storage number_codec externalities
externalities-IsLawful = record {
  genesis = record { block = 0; cells = λ k. none; log = [] };
  build_storage-ok = refl;
  get_genesis = refl;
  ensure_signed-signed = λ who. refl;
  block_number-set = λ n s. refl;
  same_error_refl = λ e. refl;
  same_event_refl = λ e. refl;
}

suite_passes_example :
    (it_works_for_default_value test_frame test_storage number_codec externalities ≡ ok tt)
    × (correct_error_for_none_value test_frame test_storage number_codec externalities ≡ ok tt)
    × (benchmark_tests test_frame test_storage number_codec externalities ≡ ok tt)
suite_passes_example =
    suite_passes test_frame test_storage number_codec externalities
      (storage_of-IsLawful (test test_frame)) number_codec-IsCodec externalities-IsLawful
