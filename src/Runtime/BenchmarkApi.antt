-- ===== src/Runtime/BenchmarkApi.antt =====
-- The benchmarks that runtime/src/lib.rs defines, and the API `frame_benchmarking::Benchmark` over
-- them. The macros that list and run one pallet's benchmarks are FRAME's, so they are parameters.
use text.Mathlib.TextEquality.{eq_iff}
use substrate_fabric_integra.Base.{
  ◌≡◌, ◌≢◌, refl, sym, ◌∙◌, ap, subst, String, Bool, Option, none, some, List, [], ◌∷◌, ◌++◌, map,
  All, Bool-cases, if◌then◌else◌, Distinct, inl, inr,
}
use substrate_fabric_integra.Base.Effect.{Result, ok, Result-cases}
use substrate_fabric_integra.Base.Outcome.{◌>>=◌}
use substrate_fabric_integra.Base.Texts.{str_eq, str_eq_cases, distinct-Distinct}

-- `BaselineBench`, `SystemBench`, `Balances`, `Timestamp`, `Sudo` and `TemplateModule`
pub data Bench : Type 0 where
  baseline system balances timestamp sudo template_module : Bench

-- `define_benchmarks!`
abbrev pub benches : List (String × Bench)
benches =
    ("frame_benchmarking", baseline)
    ∷ ("frame_system", system)
    ∷ ("pallet_balances", balances)
    ∷ ("pallet_timestamp", timestamp)
    ∷ ("pallet_sudo", sudo)
    ∷ ("pallet_template", template_module)
    ∷ []

abbrev bench_name : String × Bench → String
bench_name (name, _) = name

-- The first benchmark with a name.
abbrev pub bench_of : String → List (String × Bench) → Option Bench
bench_of n [] = none
bench_of n ((name, bench) ∷ bs) =
    let rest = bench_of n bs in if str_eq n name then some bench else rest

bench_of_same :
    (n name : String) (bench : Bench) (bs : List (String × Bench))
    → n ≡ name
    → bench_of n ((name, bench) ∷ bs) ≡ some bench
bench_of_same n name bench bs same = rw ((eq_iff n name).1 same) refl

bench_of_other :
    (n name : String) (bench : Bench) (bs : List (String × Bench))
    → n ≢ name
    → bench_of n ((name, bench) ∷ bs) ≡ bench_of n bs
bench_of_other n name bench bs other = elim (Bool-cases (str_eq n name)) [
  | inl same ↦ absurd (other ((eq_iff n name).0 same))
  | inr differ ↦ rw differ
]

-- The macros, and what the API asks of the runtime's pallets.
pub record BenchHost : Type 1 where
  pub Config : Type 0
  pub StorageKey : Type 0
  pub StorageInfo : Type 0
  pub BenchmarkList : Type 0
  pub Batch : Type 0
  -- the pallet that a configuration names
  pub pallet : Config → String
  pub storage_info : List StorageInfo
  pub whitelisted_storage_keys : List StorageKey
  pub list_benchmark : List BenchmarkList → Bool → String × Bench → List BenchmarkList
  pub add_benchmark :
      Config × List StorageKey → List Batch → String × Bench → Result String (List Batch)
  -- without a batch if the benchmark answers that it is skipped
  pub run_bench : Bench → Config × List StorageKey → Result String (Option Batch)

module _ (H : BenchHost) where
  open H use {Config, StorageKey, StorageInfo, BenchmarkList, Batch}

  -- `list_benchmarks!` and `add_benchmarks!`, in the order of the definition
  list_benchmarks : List BenchmarkList → Bool → List (String × Bench) → List BenchmarkList
  list_benchmarks list extra [] = list
  list_benchmarks list extra (b ∷ bs) = list_benchmarks (H.list_benchmark list extra b) extra bs

  add_benchmarks :
      Config × List StorageKey → List Batch → List (String × Bench) → Result String (List Batch)
  add_benchmarks params batches [] = ok batches
  add_benchmarks params batches (b ∷ bs) = do
    more ← H.add_benchmark params batches b
    add_benchmarks params more bs

  unfoldable pub benchmark_metadata : Bool → List BenchmarkList × List StorageInfo
  unfolding list_benchmarks
  benchmark_metadata extra = (list_benchmarks [] extra benches, H.storage_info)

  unfoldable pub dispatch_benchmark : Config → Result String (List Batch)
  unfolding add_benchmarks
  dispatch_benchmark config =
      let whitelist = H.whitelisted_storage_keys in add_benchmarks (config, whitelist) [] benches

  abbrev pub batch_list : Option Batch → List Batch
  batch_list none = []
  batch_list (some batch) = batch ∷ []

  -- The batch of one benchmark alone, or none if it is skipped.
  abbrev pub only : Config × List StorageKey → Bench → Result String (List Batch)
  only params bench = do batch ← H.run_bench bench params; ok (batch_list batch)

  -- The batches of a benchmark, if there is one.
  abbrev pub only_if : Config × List StorageKey → Option Bench → Result String (List Batch)
  only_if params none = ok []
  only_if params (some bench) = only params bench

  -- The benchmark that runs is that of the pallet which the configuration names, and its batch is
  -- added, if it is not skipped.
  pub record IsLawfulMacros : Type 0 where
    pub add_same :
        (params : Config × List StorageKey) (batches : List Batch) (name : String) (bench : Bench)
        → H.pallet params.0 ≡ name
        → H.add_benchmark params batches (name, bench)
          ≡ (do batch ← H.run_bench bench params; ok (batches ++ batch_list batch))
    pub add_other :
        (params : Config × List StorageKey) (batches : List Batch) (name : String) (bench : Bench)
        → H.pallet params.0 ≢ name
        → H.add_benchmark params batches (name, bench) ≡ ok batches

  module _ (L : IsLawfulMacros) (params : Config × List StorageKey) where
    add_others :
        (batches : List Batch) (bs : List (String × Bench))
        → All (λ name. H.pallet params.0 ≢ name) (map bench_name bs)
        → add_benchmarks params batches bs ≡ ok batches
    unfolding add_benchmarks
    add_others batches [] h = refl
    add_others batches ((name, bench) ∷ bs) (h, hs) =
        ap (λ r. r >>= λ more. add_benchmarks params more bs)
          (L.add_other params batches name bench h)
        ∙ add_others batches bs hs

    only-others :
        (bench : Bench) (bs : List (String × Bench))
        → All (λ name. H.pallet params.0 ≢ name) (map bench_name bs)
        → (only params bench >>= λ more. add_benchmarks params more bs) ≡ only params bench
    only-others bench bs h = elim (Result-cases (H.run_bench bench params)) [
      | inl (batch, ran) ↦ rw (ran) (add_others (batch_list batch) bs h)
      | inr (e, failed) ↦ rw failed
    ]

    add_named :
        (bs : List (String × Bench))
        → Distinct (map bench_name bs)
        → add_benchmarks params [] bs ≡ only_if params (bench_of (H.pallet params.0) bs)
    unfolding add_benchmarks
    add_named [] apart = refl
    add_named ((name, bench) ∷ bs) (fresh, apart) = elim (str_eq_cases (H.pallet params.0) name) [
      | inl same ↦
          let away = subst (λ n. All (λ m. n ≢ m) (map bench_name bs)) (sym same) fresh in
          ap (λ r. r >>= λ more. add_benchmarks params more bs)
            (L.add_same params [] name bench same)
          ∙ only-others bench bs away
          ∙ ap (only_if params) (sym (bench_of_same (H.pallet params.0) name bench bs same))
      | inr other ↦
          ap (λ r. r >>= λ more. add_benchmarks params more bs)
            (L.add_other params [] name bench other)
          ∙ add_named bs apart
          ∙ ap (only_if params) (sym (bench_of_other (H.pallet params.0) name bench bs other))
    ]

  pub dispatch_benchmark_lem :
      (L : IsLawfulMacros) (config : Config)
      → dispatch_benchmark config
        ≡ only_if (config, H.whitelisted_storage_keys) (bench_of (H.pallet config) benches)
  unfolding dispatch_benchmark
  dispatch_benchmark_lem L config =
      add_named L (config, H.whitelisted_storage_keys) benches
        (distinct-Distinct (map bench_name benches) refl)
