-- ===== src/Tests/BenchmarkRuns.antt =====
-- The runtime's benchmark API over batches that are texts.
use text.Mathlib.TextEquality.{eq_iff}
use substrate_fabric_integra.Base.{
  some, ◌≡◌, ◌≢◌, refl, String, ◌<>◌, true, false, Bool-cases, inl, inr, if◌then◌else◌, [], ◌∷◌,
  ◌++◌,
}
use substrate_fabric_integra.Base.Effect.{ok}
use substrate_fabric_integra.Base.Texts.{str_eq}
use substrate_fabric_integra.Runtime.BenchmarkApi.{
  BenchHost, IsLawfulMacros, dispatch_benchmark, dispatch_benchmark_lem,
}

-- A configuration is the name of a pallet, and a batch says which pallet ran.
abbrev texts : BenchHost
texts = record {
  Config = String;
  StorageKey = String;
  StorageInfo = String;
  BenchmarkList = String;
  Batch = String;
  pallet = λ config. config;
  storage_info = [];
  whitelisted_storage_keys = "key" ∷ [];
  list_benchmark = λ list extra b. list ++ (b.0 ∷ []);
  add_benchmark = λ params batches b.
      if str_eq params.0 b.0 then ok (batches ++ (("ran " <> params.0) ∷ [])) else ok batches;
  run_bench = λ bench params. ok (some ("ran " <> params.0));
}

str_eq-true : (s t : String) → s ≡ t → str_eq s t ≡ true
str_eq-true s t same = (eq_iff s t).1 same

str_eq-false : (s t : String) → s ≢ t → str_eq s t ≡ false
str_eq-false s t apart = elim (Bool-cases (str_eq s t)) [
  | inl same ↦ absurd (apart ((eq_iff s t).0 same))
  | inr other ↦ other
]

texts-IsLawfulMacros : IsLawfulMacros texts
texts-IsLawfulMacros = record {
  add_same = λ params batches name bench same. rw (str_eq-true params.0 name same) refl;
  add_other = λ params batches name bench apart. rw (str_eq-false params.0 name apart) refl;
}

dispatch_benchmark_lem_example :
    dispatch_benchmark texts "pallet_template" ≡ ok ("ran pallet_template" ∷ [])
dispatch_benchmark_lem_example = dispatch_benchmark_lem texts texts-IsLawfulMacros "pallet_template"
