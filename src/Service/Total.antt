-- ===== src/Service/Total.antt =====
-- A node whose every part can be had is started (node/src/service.rs).
use substrate_fabric_integra.Base.{
  ℕ, ⊤, ◌≡◌, refl, ◌∙◌, ap, String, not, Option, none, some, List, [], ◌∷◌, ◌++◌,
}
use substrate_fabric_integra.Base.Effect.{ok}
use substrate_fabric_integra.Node.Trace.{Trace, start_network, read_genesis_hash, telemetry_worker}
use substrate_fabric_integra.Node.Host.{
  Types, Configuration, FullParts, PartialComponents, AuraParams, GrandpaParams, Host, ◌>>=◌, pure,
}
use substrate_fabric_integra.Node.Completes.{
  Succeeds, Succeeds-pure, Succeeds-emit, Succeeds-bind, Succeeds-then, Succeeds-try_service,
  Succeeds-if, EndsBy-ok,
}
use substrate_fabric_integra.Service.Partial.{
  start_worker, spawn_worker, build_partial, new_partial,
}
use substrate_fabric_integra.Service.Full.{
  expect_genesis, read_genesis, genesis_hash, start_offchain, start_authoring, start_finality,
  new_full,
}
use substrate_fabric_integra.Service.Laws.{full_effects, new_full_ends}

-- Every call of the service succeeds at any time, and there is a genesis block.
pub record IsReliable {T : Types} (H : Host T) : Type 0 where
  pub worker : (past : Trace) (n : ℕ) → (w : T.Worker) × (H.new_worker past n ≡ ok w)
  pub parts :
      (past : Trace) (c : Configuration T) (h : Option T.TelemetryHandle)
      → (p : FullParts T) × (H.new_full_parts past c h ≡ ok p)
  pub import_block :
      (past : Trace) (c : T.Client) (n : ℕ) (s : T.SelectChain) (h : Option T.TelemetryHandle)
      → (p : T.BlockImport × T.LinkHalf) × (H.grandpa_import past c n s h ≡ ok p)
  pub queue :
      (past : Trace) (b : T.BlockImport) (c : T.Client) (h : Option T.TelemetryHandle)
      → (q : T.ImportQueue) × (H.aura_import_queue past b c h ≡ ok q)
  pub genesis :
      (past : Trace) (c : T.Client) → (h : T.Hash) × (H.block_hash_zero past c ≡ ok (some h))
  pub network :
      (past : Trace) (c : Configuration T) (l : T.Client) (b : T.Backend) (p : T.Pool)
      (q : T.ImportQueue) (k : T.LinkHalf)
      → (n : T.Network × T.SyncService) × (H.new_network past c l b p q k ≡ ok n)
  pub rpc :
      (past : Trace) (c : Configuration T) (p : PartialComponents T) (n : T.Network)
      (s : T.SyncService)
      → (u : ⊤) × (H.spawn_rpc_tasks past c p n s ≡ ok u)
  pub slot : (past : Trace) (c : T.Client) → (d : ℕ) × (H.slot_duration past c ≡ ok d)
  pub author : (past : Trace) (p : AuraParams T) → (u : ⊤) × (H.aura past p ≡ ok u)
  pub vote : (past : Trace) (p : GrandpaParams T) → (u : ⊤) × (H.voter past p ≡ ok u)

module _ (T : Types) (H : Host T) (reliable : IsReliable H) where
  start_worker-Succeeds :
      (endpoints : Option (List String)) → Succeeds T (start_worker T H endpoints)
  unfolding start_worker
  start_worker-Succeeds none = Succeeds-pure none
  start_worker-Succeeds (some []) = Succeeds-pure none
  start_worker-Succeeds (some (endpoint ∷ rest)) =
      Succeeds-bind (Succeeds-try_service (telemetry_worker 16) _ (λ past. reliable.worker past 16))
        λ w. Succeeds-pure _

  spawn_worker-Succeeds : (telemetry : Option T.Telemetry) → Succeeds T (spawn_worker T H telemetry)
  unfolding spawn_worker
  spawn_worker-Succeeds none = Succeeds-pure tt
  spawn_worker-Succeeds (some _) = Succeeds-emit _

  pub new_partial-Succeeds : (config : Configuration T) → Succeeds T (new_partial T H config)
  unfolding new_partial build_partial
  new_partial-Succeeds config =
      Succeeds-bind (start_worker-Succeeds config.telemetry_endpoints) λ telemetry.
        Succeeds-bind (Succeeds-try_service _ _ (λ past. reliable.parts past config _)) λ parts.
          Succeeds-then (spawn_worker-Succeeds telemetry) (
            Succeeds-then (Succeeds-emit _) (
              Succeeds-bind (Succeeds-try_service _ _ (λ past. reliable.import_block past _ _ _ _))
                λ grandpa.
                  Succeeds-bind (Succeeds-try_service _ _ (λ past. reliable.queue past _ _ _))
                    λ queue. Succeeds-pure _))

  genesis_hash-Succeeds : (client : T.Client) → Succeeds T (genesis_hash T H client)
  unfolding genesis_hash read_genesis expect_genesis ◌>>=◌ pure
  genesis_hash-Succeeds client = record {
    result = λ past.
        let (h, e) = reliable.genesis past client in (h, read_genesis_hash ∷ past, rw e refl);
  }

  start_offchain-Succeeds : (config : Configuration T) → Succeeds T (start_offchain T H config)
  unfolding start_offchain
  start_offchain-Succeeds config = Succeeds-if config.offchain_worker_enabled (Succeeds-emit _)

  start_authoring-Succeeds :
      (config : Configuration T) (parts : PartialComponents T) (sync : T.SyncService)
      → Succeeds T (start_authoring T H config parts sync)
  unfolding start_authoring
  start_authoring-Succeeds config parts sync = Succeeds-if (H.is_authority config.role) (
      Succeeds-bind (Succeeds-try_service _ _ (λ past. reliable.slot past parts.client)) λ slot.
        Succeeds-then (Succeeds-try_service _ _ (λ past. reliable.author past _)) (Succeeds-emit _))

  start_finality-Succeeds :
      (config : Configuration T) (parts : PartialComponents T) (name : T.ProtocolName)
      (network : T.Network) (sync : T.SyncService)
      → Succeeds T (start_finality T H config parts name network sync)
  unfolding start_finality
  start_finality-Succeeds config parts name network sync =
      Succeeds-if (not config.disable_grandpa)
        (Succeeds-then (Succeeds-try_service _ _ (λ past. reliable.vote past _)) (Succeeds-emit _))

  new_full-Succeeds : (config : Configuration T) → Succeeds T (new_full T H config)
  unfolding new_full
  new_full-Succeeds config = Succeeds-bind (new_partial-Succeeds config) λ parts.
      Succeeds-bind (genesis_hash-Succeeds parts.client) λ hash.
        Succeeds-bind (Succeeds-try_service _ _ (λ past. reliable.network past _ _ _ _ _ _)) λ net.
          Succeeds-then (start_offchain-Succeeds config) (
            Succeeds-then (Succeeds-try_service _ _ (λ past. reliable.rpc past _ _ _ _)) (
              Succeeds-then (start_authoring-Succeeds config parts net.1) (
                Succeeds-then (start_finality-Succeeds config parts _ net.0 net.1)
                  (Succeeds-emit _))))

  -- If every part can be had, the node starts: it succeeds, with exactly the effects that its
  -- configuration lists and the network started last.
  pub new_full_succeeds :
      (config : Configuration T) (past : Trace)
      → new_full T H config past ≡ (ok tt, start_network ∷ (full_effects H config ++ past))
  new_full_succeeds config past =
      let (u, now, e) = (new_full-Succeeds config).result past in
      e
      ∙ ap (λ t. (ok tt, t))
          (EndsBy-ok start_network (full_effects H config) past e (new_full_ends T H config past))
