-- ===== src/Pallet/Mock/Suite.antt =====
-- pallets/template/src/tests.rs and the benchmark tests of benchmarking.rs, on the mock runtime: code
-- that may panic.
use substrate_fabric_integra.Base.{
  ℕ, ⊤, ◌≤◌, ◌≡◌, refl, ◌∙◌, String, Bool, true, false, ◌==◌, Option, none, some, List, [], ◌∷◌,
  ◌++◌, arith,
}
use substrate_fabric_integra.Base.Effect.{Result, ok, err, Action}
use substrate_fabric_integra.Base.Outcome.{Failure, panicked, ◌>>=◌}
use substrate_fabric_integra.Base.Word.{u32_max}
use substrate_fabric_integra.Base.Codec.{Codec, IsCodec}
use substrate_fabric_integra.Pallet.Frame.{something_stored, none_value}
use substrate_fabric_integra.Pallet.Dispatchables.{do_something, cause_error}
use substrate_fabric_integra.Pallet.Benches.{
  BenchFault, Caller, bench_do_something, bench_cause_error, benchmarks_pass,
}
use substrate_fabric_integra.Pallet.Composition.{
  Storage, something, something_get, something_put, deposit_event, module_error, composed,
}
use substrate_fabric_integra.Pallet.Composition.Laws.{IsLawfulStorage, composed-IsLawful}
use substrate_fabric_integra.Pallet.Mock.{TestFrame, test, new_test_ext}

-- What the tests call of FRAME and sp_io beside the pallet.
pub record Externalities (T : TestFrame) (S : Storage (test T)) : Type 0 where
  pub build_storage : Result String S.State
  pub set_block_number : ℕ → S.State → S.State
  pub storage_root : S.State → ℕ
  -- `==` on errors and on events
  pub same_error : T.DispatchError → T.DispatchError → Bool
  pub same_event : (test T).OverarchingEvent → (test T).OverarchingEvent → Bool
  pub whitelisted_caller : ℕ

module _ (T : TestFrame) (S : Storage (test T)) (u32 : Codec ℕ) (X : Externalities T S) where
  abbrev Test : Type 0
  Test = Result (Failure String) ⊤

  abbrev assert : Bool → Test
  assert true = ok tt
  assert false = err (panicked "assertion failed")

  abbrev is_ok : {E : Type 0} → Result E ⊤ → Bool
  is_ok (ok _) = true
  is_ok (err _) = false

  abbrev is_value : Option ℕ → ℕ → Bool
  is_value none v = false
  is_value (some w) v = w == v

  abbrev is_error : Result T.DispatchError ⊤ → T.DispatchError → Bool
  is_error (ok _) e = false
  is_error (err d) e = X.same_error d e

  -- `System::assert_last_event`
  abbrev is_last : List (test T).OverarchingEvent → (test T).OverarchingEvent → Bool
  is_last [] e = false
  is_last (d ∷ []) e = X.same_event d e
  is_last (_ ∷ d ∷ ds) e = is_last (d ∷ ds) e

  unfoldable pub it_works_for_default_value : Test
  unfolding new_test_ext do_something something_get
  it_works_for_default_value = do
    genesis ← new_test_ext X.build_storage
    let first = X.set_block_number 1 genesis
    let called = do_something (composed (test T) S u32) (T.signed 1) 42 first
    _ ← assert (is_ok called.0)
    _ ← assert (is_value (something_get (test T) S u32 called.1) 42)
    assert (is_last (S.runtime_events called.1) ((test T).into_event (something_stored 42 1)))

  -- `assert_noop!` tests the error and that the storage root stayed.
  unfoldable pub correct_error_for_none_value : Test
  unfolding new_test_ext cause_error module_error
  correct_error_for_none_value = do
    genesis ← new_test_ext X.build_storage
    let called = cause_error (composed (test T) S u32) (T.signed 1) genesis
    _ ← assert (is_error called.0 (module_error (test T) S u32 none_value))
    assert (X.storage_root called.1 == X.storage_root genesis)

  abbrev caller : Caller (composed (test T) S u32)
  caller = record { whitelisted_caller = X.whitelisted_caller; signed = T.signed }

  -- `impl_benchmark_test_suite!`: each benchmark runs on new externalities, and must succeed.
  bench_test : Action S.State (BenchFault T.DispatchError) ⊤ → Test
  unfolding new_test_ext
  bench_test bench = do genesis ← new_test_ext X.build_storage; assert (is_ok (bench genesis).0)

  unfoldable pub benchmark_tests : Test
  unfolding bench_test bench_do_something bench_cause_error
  benchmark_tests = do
    _ ← bench_test (bench_do_something (composed (test T) S u32) caller)
    bench_test (bench_cause_error (composed (test T) S u32) caller)

  -- The default genesis storage is built, and has no value of the template pallet.
  pub record IsLawfulExternalities : Type 0 where
    pub genesis : S.State
    pub build_storage-ok : X.build_storage ≡ ok genesis
    pub get_genesis : S.get_raw (something (test T) S u32) genesis ≡ none
    pub ensure_signed-signed : (who : ℕ) → T.ensure_signed (T.signed who) ≡ ok who
    pub block_number-set : (n : ℕ) (s : S.State) → S.block_number (X.set_block_number n s) ≡ n
    pub same_error_refl : (e : T.DispatchError) → X.same_error e e ≡ true
    pub same_event_refl : (e : (test T).OverarchingEvent) → X.same_event e e ≡ true

  module _ (LS : IsLawfulStorage (test T) S) (LU : IsCodec u32 (λ n. n ≤ u32_max))
      (LX : IsLawfulExternalities) where
    is_last-append :
        (es : List (test T).OverarchingEvent) (e : (test T).OverarchingEvent)
        → is_last (es ++ (e ∷ [])) e ≡ true
    is_last-append [] e = LX.same_event_refl e
    is_last-append (d ∷ []) e = LX.same_event_refl e
    is_last-append (d ∷ d' ∷ ds) e = is_last-append (d' ∷ ds) e

    new_test_ext_lem : new_test_ext X.build_storage ≡ ok LX.genesis
    unfolding new_test_ext
    new_test_ext_lem = rw LX.build_storage-ok refl

    bench_test-passes :
        (bench : Action S.State (BenchFault T.DispatchError) ⊤)
        → ((s : S.State) → (bench s).0 ≡ ok tt)
        → bench_test bench ≡ ok tt
    unfolding bench_test
    bench_test-passes bench passes = rw (new_test_ext_lem, passes LX.genesis) refl

    -- The value set and the event deposited in a later block than that of genesis.
    get-do_something :
        (s : S.State) (n who : ℕ)
        → n ≤ u32_max
        → let t =
            deposit_event
              (test T)
              S
              u32
              (something_stored n who)
              (something_put (test T) S u32 n s) in
          something_get (test T) S u32 t ≡ some n
    get-do_something s n who fits =
        let L = composed-IsLawful (test T) S (λ e. refl) LS u32 LU in
        L.get-deposit_event (something_stored n who) _ ∙ L.get-put n s fits

    runtime_events-do_something :
        (s : S.State) (n who : ℕ)
        → S.block_number s ≡ 1
        → let t = something_put (test T) S u32 n s in
          S.runtime_events (deposit_event (test T) S u32 (something_stored n who) t)
          ≡ S.runtime_events t ++ ((test T).into_event (something_stored n who) ∷ [])
    unfolding deposit_event something_put
    runtime_events-do_something s n who first =
        rw (LS.events-deposit, LS.block_number-put_raw, first) refl

    it_works_for_default_value-passes : it_works_for_default_value ≡ ok tt
    unfolding it_works_for_default_value
    it_works_for_default_value-passes =
        let first = X.set_block_number 1 LX.genesis in
        rw
          (
            new_test_ext_lem,
            LX.ensure_signed-signed,
            get-do_something first 42 1 (omega arith),
            runtime_events-do_something first 42 1 (LX.block_number-set 1 LX.genesis),
            is_last-append,
          )
          refl

    correct_error_for_none_value-passes : correct_error_for_none_value ≡ ok tt
    unfolding correct_error_for_none_value something_get
    correct_error_for_none_value-passes =
        rw (new_test_ext_lem, LX.ensure_signed-signed, LX.get_genesis, LX.same_error_refl)
          (ground arith)

    pub suite_passes :
        (it_works_for_default_value ≡ ok tt)
        × (correct_error_for_none_value ≡ ok tt)
        × (benchmark_tests ≡ ok tt)
    unfolding benchmark_tests
    suite_passes =
        let passes =
          benchmarks_pass (composed (test T) S u32) caller
            (composed-IsLawful (test T) S (λ e. refl) LS u32 LU)
            (record { ensure_signed-signed = LX.ensure_signed-signed }) in
        (
          it_works_for_default_value-passes,
          correct_error_for_none_value-passes,
          rw
              (bench_test-passes (bench_do_something (composed (test T) S u32) caller)
                (λ s. (passes s).0))
              (bench_test-passes (bench_cause_error (composed (test T) S u32) caller)
                (λ s. (passes s).1)),
        )
