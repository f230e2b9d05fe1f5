-- ===== src/Command/Laws.antt =====
-- The order of effects of `run` in node/src/command.rs, subcommand by subcommand.
use substrate_fabric_integra.Base.{
  ⊤, ◌≡◌, refl, sym, subst, String, Bool, true, false, Option, none, some, List, [], ◌∷◌, ◌++◌,
}
use substrate_fabric_integra.Base.Effect.{ok}
use substrate_fabric_integra.Node.Trace.{
  BenchmarkCmd, pallet, block, storage, overhead, extrinsic, machine, Subcommand, key, build_spec,
  check_block, export_blocks, export_state, import_blocks, purge_chain, revert, benchmark,
  try_runtime, chain_info, Effect, Trace, create_runner, benchmark_data, run_until_exit,
  run_command, start_network,
}
use substrate_fabric_integra.Node.Host.{
  Types, Configuration, PartialComponents, Input, Host, M, ◌>>=◌, try_cli,
}
use substrate_fabric_integra.Node.Follows.{
  Ends, Follows, Follows-bind, Follows-then, Follows-cast, Follows-try_cli, Follows-bind_try_cli,
  Follows-if_raise, Follows-raises,
}
use substrate_fabric_integra.Service.Laws.{
  when, partial_effects, full_effects, new_partial-Follows, new_full-Follows,
}
use substrate_fabric_integra.Service.Partial.{new_partial}
use substrate_fabric_integra.Command.Run.{Features, run_benchmark, run}

-- Whether a subcommand builds the node's parts, and whether it needs inherent data.
abbrev pub builds_parts : Subcommand → Bool
builds_parts check_block = true
builds_parts export_blocks = true
builds_parts export_state = true
builds_parts import_blocks = true
builds_parts revert = true
builds_parts (benchmark block) = true
builds_parts (benchmark storage) = true
builds_parts (benchmark overhead) = true
builds_parts (benchmark extrinsic) = true
builds_parts _ = false

-- Whether the build of the node has the subcommand at all.
abbrev pub is_enabled : Features → Subcommand → Bool
is_enabled f (benchmark pallet) = f.runtime_benchmarks
is_enabled f (benchmark storage) = f.runtime_benchmarks
is_enabled f try_runtime = false
is_enabled f _ = true

abbrev pub takes_inherents : Subcommand → Bool
takes_inherents (benchmark overhead) = true
takes_inherents (benchmark extrinsic) = true
takes_inherents _ = false

-- Whether a subcommand is run with a runner, which reads the configuration.
abbrev pub has_runner : Subcommand → Bool
has_runner key = false
has_runner try_runtime = false
has_runner _ = true

-- The effects of a subcommand, the latest first; one that the build lacks ends before its own.
abbrev pub run_effects : Features → Option (List String) → Subcommand → List Effect
run_effects f endpoints c =
    when (is_enabled f c) (
      run_command c
      ∷ (when (takes_inherents c) (benchmark_data ∷ [])
          ++ when (builds_parts c) (partial_effects endpoints)))
    ++ when (has_runner c) (create_runner ∷ [])

-- Whatever the runner returns is this configuration.
abbrev pub Reads : {T : Types} → Host T → Configuration T → Type 0
Reads {T} H config = (past : Trace) (c : Configuration T) → H.new_runner past ≡ ok c → c ≡ config

module _ (T : Types) (H : Host T) (f : Features) (config : Configuration T) where
  perform-Follows :
      (c : Subcommand) (i : Input T)
      → Follows T (run_command c ∷ []) (try_cli (run_command c) (λ tr. H.command tr c i))
  perform-Follows c i = Follows-try_cli (run_command c) _

  run_benchmark-Follows :
      (b : BenchmarkCmd)
      → let c = benchmark b in
        Follows T
          (when (is_enabled f c) (
            run_command c
            ∷ (when (takes_inherents c) (benchmark_data ∷ [])
                ++ when (builds_parts c) (partial_effects config.telemetry_endpoints))))
          (run_benchmark T H f b config)
  unfolding run_benchmark
  run_benchmark-Follows pallet = Follows-if_raise f.runtime_benchmarks _ (Follows-try_cli _ _)
  run_benchmark-Follows block =
      Follows-bind (new_partial-Follows T H config) λ parts. Follows-try_cli _ _
  run_benchmark-Follows storage =
      Follows-if_raise f.runtime_benchmarks _
        (Follows-bind (new_partial-Follows T H config) λ parts. Follows-try_cli _ _)
  run_benchmark-Follows overhead =
      Follows-cast
        (Follows-bind (new_partial-Follows T H config)
          λ parts. Follows-bind (Follows-try_cli benchmark_data _) λ i. Follows-try_cli _ _)
        refl
  run_benchmark-Follows extrinsic =
      Follows-cast
        (Follows-bind (new_partial-Follows T H config)
          λ parts. Follows-bind (Follows-try_cli benchmark_data _) λ i. Follows-try_cli _ _)
        refl
  run_benchmark-Follows machine = Follows-try_cli _ _

  module _ (reads : Reads H config) where
    with_runner :
        {ys : List Effect} (k : Configuration T → M T ⊤)
        → Follows T ys (k config)
        → Follows T (ys ++ (create_runner ∷ [])) (try_cli create_runner H.new_runner >>= k)
    with_runner {ys} k h =
        Follows-bind_try_cli create_runner H.new_runner
          λ c past answer. subst (λ d. Follows T ys (k d)) (sym (reads past c answer)) h

    with_parts :
        (c : Subcommand) {k : PartialComponents T → M T ⊤}
        → ((p : PartialComponents T) → Follows T (run_command c ∷ []) (k p))
        → Follows T
            (run_command c ∷ partial_effects config.telemetry_endpoints)
            (new_partial T H config >>= k)
    with_parts c h = Follows-bind (new_partial-Follows T H config) h

    run-Follows :
        (c : Subcommand)
        → Follows T (run_effects f config.telemetry_endpoints c) (run T H f (some c))
    unfolding run
    run-Follows key = Follows-try_cli _ _
    run-Follows build_spec = with_runner _ (Follows-try_cli _ _)
    run-Follows check_block = with_runner _ (with_parts _ λ p. Follows-try_cli _ _)
    run-Follows export_blocks = with_runner _ (with_parts _ λ p. Follows-try_cli _ _)
    run-Follows export_state = with_runner _ (with_parts _ λ p. Follows-try_cli _ _)
    run-Follows import_blocks = with_runner _ (with_parts _ λ p. Follows-try_cli _ _)
    run-Follows purge_chain = with_runner _ (Follows-try_cli _ _)
    run-Follows revert = with_runner _ (with_parts _ λ p. Follows-try_cli _ _)
    run-Follows (benchmark b) = with_runner _ (run_benchmark-Follows b)
    run-Follows try_runtime = Follows-raises f.try_runtime _ _
    run-Follows chain_info = with_runner _ (Follows-try_cli _ _)

    -- Where the runner returns no configuration but this one, a subcommand has the effects of
    -- `run_effects` in their order: it reads the configuration, builds the node's parts where it
    -- needs them, then makes inherent data, and its own work comes last. If a step fails, the later
    -- ones are not taken.
    pub run-Ends :
        (c : Subcommand) (past : Trace)
        → Ends (run_effects f config.telemetry_endpoints c) past (run T H f (some c) past)
    run-Ends c past = (run-Follows c).ends past

    -- Where the runner returns no configuration but this one, with no subcommand the node is built
    -- from it and started, and then awaited; if a step fails, the later ones are not taken.
    pub run_node-Ends :
        (past : Trace)
        → Ends
            (run_until_exit ∷ start_network ∷ (full_effects H config ++ (create_runner ∷ [])))
            past
            (run T H f none past)
    unfolding run
    run_node-Ends past =
        (with_runner _
            (Follows-then (new_full-Follows T H config) (Follows-try_cli run_until_exit _))).ends
          past
