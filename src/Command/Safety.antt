-- ===== src/Command/Safety.antt =====
-- What `run` in node/src/command.rs cannot do, and when it succeeds.
use substrate_fabric_integra.Base.{
  ◌+◌, ⊤, ◌≡◌, ◌≢◌, refl, String, sym, subst, ◌∙◌, ap, Bool, true, false, Option, none, some, List,
  [], ◌∷◌, ◌++◌, arith,
}
use substrate_fabric_integra.Base.Effect.{Result, ok, err}
use substrate_fabric_integra.Base.Outcome.{ok-injective}
use substrate_fabric_integra.Node.Trace.{
  BenchmarkCmd, pallet, block, storage, overhead, extrinsic, machine, Subcommand, key, build_spec,
  check_block, export_blocks, export_state, import_blocks, purge_chain, revert, benchmark,
  try_runtime, chain_info, Effect, Trace, count, is_start_network, is_run_command, run_command,
}
use substrate_fabric_integra.Node.Host.{
  Types, Configuration, Input, Host, ◌>>=◌, ◌>>◌, raise, try_cli,
}
use substrate_fabric_integra.Node.Follows.{Ends}
use substrate_fabric_integra.Node.Completes.{Succeeds, Succeeds-bind, Succeeds-try_cli}
use substrate_fabric_integra.Service.Total.{IsReliable, new_partial-Succeeds}
use substrate_fabric_integra.Command.Run.{Features, run_benchmark, run}
use substrate_fabric_integra.Command.Laws.{is_enabled, run_effects, Reads, run-Ends}

count-append :
    (p : Effect → Bool) (xs ys : List Effect) → count p (xs ++ ys) ≡ count p xs + count p ys
count-append p [] ys = omega arith
count-append p (x ∷ xs) ys = ground (arith, count-append p xs ys)

-- Code that lists no effect of a kind has none, however it ends.
count-Ends :
    {E A : Type 0} (p : Effect → Bool) (xs : List Effect) (past : Trace) (r : Result E A × Trace)
    → count p xs ≡ 0
    → Ends xs past r
    → count p r.1 ≡ count p past
count-Ends p xs past (ok a, now) h ends = rw ends (omega (arith, count-append p xs past))
count-Ends p xs past (err e, now) h (left, done, split, moved) =
    let listed : count p (left ++ done) ≡ 0 = rw split at h in
    rw moved (omega (arith, count-append p left done, count-append p done past))

run_effects-quiet :
    (f : Features) (endpoints : Option (List String)) (c : Subcommand)
    → count is_start_network (run_effects f endpoints c) ≡ 0
run_effects-quiet f none key = refl
run_effects-quiet f none (benchmark pallet) = ground arith
run_effects-quiet f none _ = ground arith
run_effects-quiet f (some []) key = refl
run_effects-quiet f (some []) (benchmark pallet) = ground arith
run_effects-quiet f (some []) _ = ground arith
run_effects-quiet f (some (_ ∷ _)) key = refl
run_effects-quiet f (some (_ ∷ _)) (benchmark pallet) = ground arith
run_effects-quiet f (some (_ ∷ _)) _ = ground arith

module _ (T : Types) (H : Host T) (f : Features) (config : Configuration T)
    (reads : Reads H config) where
  -- Where the runner returns no configuration but this one, no subcommand starts the network,
  -- whether it succeeds or fails.
  pub run_starts_no_network :
      (c : Subcommand) (past : Trace)
      → count is_start_network (run T H f (some c) past).1 ≡ count is_start_network past
  run_starts_no_network c past =
      count-Ends is_start_network (run_effects f config.telemetry_endpoints c) past
        (run T H f (some c) past) (run_effects-quiet f config.telemetry_endpoints c)
        (run-Ends T H f config reads c past)

module _ (T : Types) (H : Host T) (f : Features) where
  -- A subcommand that the build lacks is refused, with no command run.
  pub run_disabled :
      (c : Subcommand) (past : Trace)
      → is_enabled f c ≡ false
      → ((run T H f (some c) past).0 ≢ ok tt)
        × (count is_run_command (run T H f (some c) past).1 ≡ count is_run_command past)
  unfolding run run_benchmark ◌>>=◌ ◌>>◌ raise try_cli
  run_disabled (benchmark pallet) past off = ground arith
  run_disabled (benchmark storage) past off = ground arith
  run_disabled try_runtime past off = ground arith
  run_disabled _ past off = absurd (ground arith)

  module _ (reliable : IsReliable H)
      (runs : (past : Trace) → (c : Configuration T) × (H.new_runner past ≡ ok c))
      (inherents : (past : Trace) → (i : T.InherentData) × (H.inherent_benchmark_data past ≡ ok i))
      (commands : (past : Trace) (c : Subcommand) (i : Input T)
        → (u : ⊤) × (H.command past c i ≡ ok u)) where
    performs :
        (c : Subcommand) (i : Input T)
        → Succeeds T (try_cli (run_command c) (λ tr. H.command tr c i))
    performs c i = Succeeds-try_cli (run_command c) _ (λ past. commands past c i)

    run_benchmark-Succeeds :
        (b : BenchmarkCmd) (config : Configuration T)
        → is_enabled f (benchmark b) ≡ true
        → Succeeds T (run_benchmark T H f b config)
    unfolding run_benchmark
    run_benchmark-Succeeds pallet config on = rw on (performs _ _)
    run_benchmark-Succeeds block config on =
        Succeeds-bind (new_partial-Succeeds T H reliable config) λ p. performs _ _
    run_benchmark-Succeeds storage config on =
        rw on (Succeeds-bind (new_partial-Succeeds T H reliable config) λ p. performs _ _)
    run_benchmark-Succeeds overhead config on =
        Succeeds-bind (new_partial-Succeeds T H reliable config)
          λ p. Succeeds-bind (Succeeds-try_cli _ _ inherents) λ i. performs _ _
    run_benchmark-Succeeds extrinsic config on =
        Succeeds-bind (new_partial-Succeeds T H reliable config)
          λ p. Succeeds-bind (Succeeds-try_cli _ _ inherents) λ i. performs _ _
    run_benchmark-Succeeds machine config on = performs _ _

    run-Succeeds : (c : Subcommand) → is_enabled f c ≡ true → Succeeds T (run T H f (some c))
    unfolding run
    run-Succeeds key on = performs _ _
    run-Succeeds build_spec on = Succeeds-bind (Succeeds-try_cli _ _ runs) λ c. performs _ _
    run-Succeeds purge_chain on = Succeeds-bind (Succeeds-try_cli _ _ runs) λ c. performs _ _
    run-Succeeds chain_info on = Succeeds-bind (Succeeds-try_cli _ _ runs) λ c. performs _ _
    run-Succeeds (benchmark b) on =
        Succeeds-bind (Succeeds-try_cli _ _ runs) λ c. run_benchmark-Succeeds b c on
    run-Succeeds try_runtime on = absurd (ground arith)
    run-Succeeds check_block on =
        Succeeds-bind (Succeeds-try_cli _ _ runs)
          λ c. Succeeds-bind (new_partial-Succeeds T H reliable c) λ p. performs _ _
    run-Succeeds export_blocks on =
        Succeeds-bind (Succeeds-try_cli _ _ runs)
          λ c. Succeeds-bind (new_partial-Succeeds T H reliable c) λ p. performs _ _
    run-Succeeds export_state on =
        Succeeds-bind (Succeeds-try_cli _ _ runs)
          λ c. Succeeds-bind (new_partial-Succeeds T H reliable c) λ p. performs _ _
    run-Succeeds import_blocks on =
        Succeeds-bind (Succeeds-try_cli _ _ runs)
          λ c. Succeeds-bind (new_partial-Succeeds T H reliable c) λ p. performs _ _
    run-Succeeds revert on =
        Succeeds-bind (Succeeds-try_cli _ _ runs)
          λ c. Succeeds-bind (new_partial-Succeeds T H reliable c) λ p. performs _ _

Ends-ok :
    {E A : Type 0} (xs : List Effect) (past : Trace) {r : Result E A × Trace} {a : A} {now : Trace}
    → r ≡ (ok a, now)
    → Ends xs past r
    → r ≡ (ok a, xs ++ past)
Ends-ok xs past {a} h ends = h ∙ ap (λ t. (ok a, t)) (subst (Ends xs past) h ends)

module _ (T : Types) (H : Host T) (f : Features) (config : Configuration T) where
  -- If the runner gives a configuration and the service's calls, the inherent data and the commands all
  -- succeed, a subcommand that the build has succeeds, with exactly its own effects in their order.
  pub run_succeeds :
      IsReliable H
      → ((past : Trace) → H.new_runner past ≡ ok config)
      → ((past : Trace) → (i : T.InherentData) × (H.inherent_benchmark_data past ≡ ok i))
      → ((past : Trace) (c : Subcommand) (i : Input T) → (u : ⊤) × (H.command past c i ≡ ok u))
      → (c : Subcommand) → is_enabled f c ≡ true
      → (past : Trace)
      → run T H f (some c) past ≡ (ok tt, run_effects f config.telemetry_endpoints c ++ past)
  run_succeeds reliable runs inherents commands c on past =
      let (u, now, e) =
        (run-Succeeds T H f reliable (λ p. (config, runs p)) inherents commands c on).result past in
      let reads : Reads H config = λ p c' answer. ok-injective (sym answer ∙ runs p) in
      Ends-ok _ past e (run-Ends T H f config reads c past)
