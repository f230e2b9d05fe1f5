-- ===== src/Service/Full.antt =====
-- `new_full` of node/src/service.rs, in its four stages.
use substrate_fabric_integra.Base.{⊤, true, false, not, Option, none, some, ◌∷◌, if◌then◌else◌}
use substrate_fabric_integra.Base.Effect.{Result, ok, err}
use substrate_fabric_integra.Node.Trace.{
  Task, read_genesis_hash, build_network, rpc_tasks, read_slot_duration, start_aura, grandpa_voter,
  spawn, start_network,
}
use substrate_fabric_integra.Node.Host.{
  Types, Configuration, PartialComponents, Host, M, panic, ◌>>=◌, ◌>>◌, pure, raise, try_service,
  emit,
}
use substrate_fabric_integra.Service.Partial.{grandpa_justification_period, handle_of, new_partial}

abbrev pub offchain_task : Task
offchain_task = record {
  name = "offchain-workers-runner";
  group = some "offchain-worker";
  essential = false;
  blocking = false;
}

abbrev pub aura_task : Task
aura_task = record {
  name = "aura";
  group = some "block-authoring";
  essential = true;
  blocking = true;
}

abbrev pub grandpa_task : Task
grandpa_task = record { name = "grandpa-voter"; group = none; essential = true; blocking = true }

module _ (T : Types) (H : Host T) where
  -- `.ok().flatten().expect(…)`
  unfoldable pub expect_genesis : Result T.ServiceError (Option T.Hash) → M T T.Hash
  expect_genesis (ok (some hash)) = pure hash
  expect_genesis (ok none) = raise (panic "Genesis block exists; qed")
  expect_genesis (err _) = raise (panic "Genesis block exists; qed")

  -- `client.block_hash(0)`, whose failure is an answer too
  unfoldable pub read_genesis : T.Client → M T (Result T.ServiceError (Option T.Hash))
  read_genesis client tr = (ok (H.block_hash_zero tr client), read_genesis_hash ∷ tr)

  unfoldable pub genesis_hash : T.Client → M T T.Hash
  genesis_hash client = do answer ← read_genesis client; expect_genesis answer

  unfoldable pub start_offchain : Configuration T → M T ⊤
  start_offchain config =
      if config.offchain_worker_enabled then emit (spawn offchain_task) else pure tt

  unfoldable pub start_authoring : Configuration T → PartialComponents T → T.SyncService → M T ⊤
  start_authoring config parts sync_service =
      let author : M T ⊤ = do
        slot ← try_service read_slot_duration (λ tr. H.slot_duration tr parts.client)
        try_service (start_aura config.force_authoring) (λ tr. H.aura tr (record {
          slot_duration = slot;
          client = parts.client;
          select_chain = parts.select_chain;
          block_import = parts.block_import;
          transaction_pool = parts.transaction_pool;
          force_authoring = config.force_authoring;
          backoff_authoring_blocks = none;
          keystore = parts.keystore;
          sync_service = sync_service;
          telemetry = handle_of T H parts.telemetry;
        }))
        emit (spawn aura_task)
      in if H.is_authority config.role then author else pure tt

  unfoldable pub start_finality :
      Configuration T → PartialComponents T → T.ProtocolName → T.Network → T.SyncService → M T ⊤
  start_finality config parts protocol_name network sync_service =
      let authority = H.is_authority config.role in
      let vote : M T ⊤ = do
        try_service (grandpa_voter grandpa_justification_period authority) (λ tr.
            H.voter tr (record {
              gossip_duration = 333;
              justification_generation_period = grandpa_justification_period;
              name = some config.node_name;
              observer_enabled = false;
              keystore = if authority then some parts.keystore else none;
              local_role = config.role;
              protocol_name = protocol_name;
              link = parts.grandpa_link;
              network = network;
              sync = sync_service;
              notification_service = H.grandpa_notifications protocol_name;
              transaction_pool = parts.transaction_pool;
              telemetry = handle_of T H parts.telemetry;
            }))
        emit (spawn grandpa_task)
      in if not config.disable_grandpa then vote else pure tt

  unfoldable pub new_full : Configuration T → M T ⊤
  new_full config = do
    parts ← new_partial T H config
    hash ← genesis_hash parts.client
    let protocol_name = H.protocol_standard_name hash config
    net ← try_service build_network (λ tr.
        H.new_network tr config parts.client parts.backend parts.transaction_pool parts.import_queue
          parts.grandpa_link)
    start_offchain config
    try_service rpc_tasks (λ tr. H.spawn_rpc_tasks tr config parts net.0 net.1)
    start_authoring config parts net.1
    start_finality config parts protocol_name net.0 net.1
    emit start_network
