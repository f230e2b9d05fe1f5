-- ===== src/Service/Partial.antt =====
-- `new_partial` of node/src/service.rs.
use substrate_fabric_integra.Base.{ℕ, ⊤, String, false, Option, none, some, List, [], ◌∷◌}
use substrate_fabric_integra.Node.Trace.{
  Task, telemetry_worker, full_parts, transaction_pool, grandpa_block_import, import_queue, spawn,
}
use substrate_fabric_integra.Node.Host.{
  Types, Configuration, PartialComponents, Host, M, ◌>>=◌, ◌>>◌, pure, try_service, emit,
}

abbrev pub grandpa_justification_period : ℕ
grandpa_justification_period = 512

abbrev pub telemetry_task : Task
telemetry_task = record { name = "telemetry"; group = none; essential = false; blocking = false }

module _ (T : Types) (H : Host T) where
  -- `.clone().filter(|x| !x.is_empty()).map(…).transpose()?`
  unfoldable pub start_worker : Option (List String) → M T (Option T.Telemetry)
  start_worker none = pure none
  start_worker (some []) = pure none
  start_worker (some (endpoint ∷ rest)) = do
    worker ← try_service (telemetry_worker 16) (λ tr. H.new_worker tr 16)
    pure (some (H.new_telemetry worker (endpoint ∷ rest)))

  -- `telemetry.map(…)`, which spawns the worker
  unfoldable pub spawn_worker : Option T.Telemetry → M T ⊤
  spawn_worker none = pure tt
  spawn_worker (some _) = emit (spawn telemetry_task)

  abbrev pub handle_of : Option T.Telemetry → Option T.TelemetryHandle
  handle_of none = none
  handle_of (some telemetry) = some (H.handle telemetry)

  -- All that follows the telemetry's worker.
  unfoldable pub build_partial : Configuration T → Option T.Telemetry → M T (PartialComponents T)
  build_partial config telemetry = do
    parts ← try_service full_parts (λ tr. H.new_full_parts tr config (handle_of telemetry))
    spawn_worker telemetry
    emit transaction_pool
    grandpa ← try_service (grandpa_block_import grandpa_justification_period) (λ tr.
        H.grandpa_import tr parts.client grandpa_justification_period
          (H.longest_chain parts.backend) (handle_of telemetry))
    queue ←
        try_service import_queue
          (λ tr. H.aura_import_queue tr grandpa.0 parts.client (handle_of telemetry))
    pure (record {
      client = parts.client;
      backend = parts.backend;
      import_queue = queue;
      keystore = parts.keystore;
      select_chain = H.longest_chain parts.backend;
      transaction_pool = H.new_pool config parts.client;
      block_import = grandpa.0;
      grandpa_link = grandpa.1;
      telemetry = telemetry;
    })

  unfoldable pub new_partial : Configuration T → M T (PartialComponents T)
  new_partial config = do
    telemetry ← start_worker config.telemetry_endpoints
    build_partial config telemetry
