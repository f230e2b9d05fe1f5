-- ===== src/Service/Laws.antt =====
-- The order of effects in node/src/service.rs: which parts and tasks a configuration gets.
use mathlib.Core.List.{append_assoc, append-nil}
use substrate_fabric_integra.Base.{
  refl, sym, String, Bool, true, false, not, Option, none, some, List, [], ◌∷◌, ◌++◌, if◌then◌else◌,
}
use substrate_fabric_integra.Base.Effect.{Result, ok, err}
use substrate_fabric_integra.Node.Trace.{
  Effect, Trace, telemetry_worker, full_parts, transaction_pool, grandpa_block_import, import_queue,
  spawn, read_genesis_hash, build_network, rpc_tasks, read_slot_duration, start_aura, grandpa_voter,
  start_network,
}
use substrate_fabric_integra.Node.Host.{Types, Configuration, PartialComponents, Host, M, ◌>>=◌}
use substrate_fabric_integra.Node.Follows.{
  Follows, Follows-bind, Follows-then, Follows-cast, Follows-pure_bind, Follows-bind_pure,
  Follows-pure, Follows-raise, Follows-emit, Follows-try_service, Follows-if,
}
use substrate_fabric_integra.Node.Completes.{
  EndsBy, Completes, Completes-emit, Completes-bind, Completes-then, Completes-cast,
  Completes-Follows,
}
use substrate_fabric_integra.Service.Partial.{
  telemetry_task, start_worker, spawn_worker, build_partial, new_partial,
}
use substrate_fabric_integra.Service.Full.{
  offchain_task, aura_task, grandpa_task, expect_genesis, read_genesis, genesis_hash,
  start_offchain, start_authoring, start_finality, new_full,
}

-- `on` lists the effects if the condition holds.
abbrev pub when : Bool → List Effect → List Effect
when b xs = if b then xs else []

abbrev pub has_endpoints : Option (List String) → Bool
has_endpoints none = false
has_endpoints (some []) = false
has_endpoints (some (_ ∷ _)) = true

-- The effects, the latest first, of `build_partial`, with a telemetry or without.
abbrev pub build_effects : Bool → List Effect
build_effects telemetry =
    import_queue
    ∷ grandpa_block_import 512
    ∷ transaction_pool
    ∷ (when telemetry (spawn telemetry_task ∷ []) ++ (full_parts ∷ []))

-- The effects of `new_partial`.
abbrev pub partial_effects : Option (List String) → List Effect
partial_effects endpoints =
    let telemetry = has_endpoints endpoints in
    build_effects telemetry ++ when telemetry (telemetry_worker 16 ∷ [])

module _ {T : Types} (H : Host T) where
  -- The effects of `new_full` before the network is started.
  abbrev pub full_effects : Configuration T → List Effect
  full_effects config =
      let authority = H.is_authority config.role in
      when (not config.disable_grandpa) (spawn grandpa_task ∷ grandpa_voter 512 authority ∷ [])
      ++ (when authority
            (spawn aura_task ∷ start_aura config.force_authoring ∷ read_slot_duration ∷ [])
          ++ (rpc_tasks
              ∷ (when config.offchain_worker_enabled (spawn offchain_task ∷ [])
                  ++ (build_network
                      ∷ read_genesis_hash
                      ∷ partial_effects config.telemetry_endpoints))))

module _ (T : Types) (H : Host T) where
  spawn_worker-Follows-none : Follows T [] (spawn_worker T H none)
  unfolding spawn_worker
  spawn_worker-Follows-none = Follows-pure tt

  spawn_worker-Follows-some :
      (telemetry : T.Telemetry)
      → Follows T (spawn telemetry_task ∷ []) (spawn_worker T H (some telemetry))
  unfolding spawn_worker
  spawn_worker-Follows-some telemetry = Follows-emit (spawn telemetry_task)

  build_partial-Follows :
      (config : Configuration T) (telemetry : Option T.Telemetry) (b : Bool)
      → Follows T (when b (spawn telemetry_task ∷ [])) (spawn_worker T H telemetry)
      → Follows T (build_effects b) (build_partial T H config telemetry)
  unfolding build_partial
  build_partial-Follows config telemetry b worker =
      Follows-cast
        (Follows-bind (Follows-try_service full_parts _) λ parts. Follows-then worker (
          Follows-then (Follows-emit transaction_pool) (
            Follows-bind (Follows-try_service (grandpa_block_import 512) _) λ grandpa.
              Follows-bind (Follows-try_service import_queue _) λ queue. Follows-pure _)))
        refl

  expect_genesis-Follows :
      (answer : Result T.ServiceError (Option T.Hash)) → Follows T [] (expect_genesis T H answer)
  unfolding expect_genesis
  expect_genesis-Follows (ok (some hash)) = Follows-pure hash
  expect_genesis-Follows (ok none) = Follows-raise _
  expect_genesis-Follows (err _) = Follows-raise _

  read_genesis-Follows :
      (client : T.Client) → Follows T (read_genesis_hash ∷ []) (read_genesis T H client)
  unfolding read_genesis
  read_genesis-Follows client = record { ends = λ past. refl }

  start_worker-Follows :
      (endpoints : Option (List String)) (xs : Bool → List Effect)
      (k : Option T.Telemetry → M T (PartialComponents T))
      → Follows T (xs false) (k none)
      → ((t : T.Telemetry) → Follows T (xs true) (k (some t)))
      → let b = has_endpoints endpoints in
        Follows T (xs b ++ when b (telemetry_worker 16 ∷ [])) (start_worker T H endpoints >>= k)
  unfolding start_worker
  start_worker-Follows none xs k without with_some =
      Follows-cast (Follows-pure_bind none k without) (sym (append-nil (xs false)))
  start_worker-Follows (some []) xs k without with_some =
      Follows-cast (Follows-pure_bind none k without) (sym (append-nil (xs false)))
  start_worker-Follows (some (endpoint ∷ rest)) xs k without with_some =
      Follows-bind_pure k (Follows-try_service (telemetry_worker 16) _) (λ worker. with_some _)

  pub new_partial-Follows :
      (config : Configuration T)
      → Follows T (partial_effects config.telemetry_endpoints) (new_partial T H config)
  unfolding new_partial
  new_partial-Follows config =
      start_worker-Follows config.telemetry_endpoints build_effects (build_partial T H config)
        (build_partial-Follows config none false spawn_worker-Follows-none)
        (λ t. build_partial-Follows config (some t) true (spawn_worker-Follows-some t))

  genesis_hash-Follows :
      (client : T.Client) → Follows T (read_genesis_hash ∷ []) (genesis_hash T H client)
  unfolding genesis_hash
  genesis_hash-Follows client = Follows-bind (read_genesis-Follows client) expect_genesis-Follows

  start_offchain-Follows :
      (config : Configuration T)
      → Follows T
          (when config.offchain_worker_enabled (spawn offchain_task ∷ []))
          (start_offchain T H config)
  unfolding start_offchain
  start_offchain-Follows config = Follows-if config.offchain_worker_enabled (Follows-emit _)

  start_authoring-Follows :
      (config : Configuration T) (parts : PartialComponents T) (sync : T.SyncService)
      → Follows T
          (when
            (H.is_authority config.role)
            (spawn aura_task ∷ start_aura config.force_authoring ∷ read_slot_duration ∷ []))
          (start_authoring T H config parts sync)
  unfolding start_authoring
  start_authoring-Follows config parts sync = Follows-if (H.is_authority config.role) (
      Follows-bind (Follows-try_service read_slot_duration _) λ slot.
        Follows-then (Follows-try_service (start_aura config.force_authoring) _)
          (Follows-emit (spawn aura_task)))

  start_finality-Follows :
      (config : Configuration T) (parts : PartialComponents T) (name : T.ProtocolName)
      (network : T.Network) (sync : T.SyncService)
      → Follows T
          (when
            (not config.disable_grandpa)
            (spawn grandpa_task ∷ grandpa_voter 512 (H.is_authority config.role) ∷ []))
          (start_finality T H config parts name network sync)
  unfolding start_finality
  start_finality-Follows config parts name network sync = Follows-if (not config.disable_grandpa) (
      Follows-then (Follows-try_service (grandpa_voter 512 (H.is_authority config.role)) _)
        (Follows-emit (spawn grandpa_task)))

  pub new_full-Completes :
      (config : Configuration T)
      → Completes T start_network (full_effects H config) (new_full T H config)
  unfolding new_full
  new_full-Completes config =
      Completes-cast
        (Completes-bind (new_partial-Follows config) λ parts.
          Completes-bind (genesis_hash-Follows parts.client) λ hash.
            Completes-bind (Follows-try_service build_network _) λ net.
              Completes-then (start_offchain-Follows config) (
                Completes-then (Follows-try_service rpc_tasks _) (
                  Completes-then (start_authoring-Follows config parts net.1) (
                    Completes-then (start_finality-Follows config parts _ net.0 net.1)
                      (Completes-emit start_network)))))
        (simp append_assoc)

  -- A node that is built has had the effects that its configuration lists, in their order, and then
  -- started the network; one that fails stopped somewhere in that list, with the network not started.
  pub new_full_ends :
      (config : Configuration T) (past : Trace)
      → EndsBy start_network (full_effects H config) past (new_full T H config past)
  new_full_ends config past = (new_full-Completes config).ends past

  pub new_full-Follows :
      (config : Configuration T)
      → Follows T (start_network ∷ full_effects H config) (new_full T H config)
  new_full-Follows config = Completes-Follows (new_full-Completes config)
