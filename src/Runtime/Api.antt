-- ===== src/Runtime/Api.antt =====
-- The runtime APIs that `impl_runtime_apis!` of runtime/src/lib.rs implements.
use substrate_fabric_integra.Base.{ℕ, ⊤, Option, none, List}
use substrate_fabric_integra.Runtime.Params.{RuntimeVersion, version}
use substrate_fabric_integra.Runtime.ApiFrame.{RuntimeTypes, Bytes, RuntimeFrame}
use substrate_fabric_integra.Runtime.PaymentApi.{PaymentRequest, PaymentResponse, payment_api}
use substrate_fabric_integra.Runtime.GenesisApi.{GenesisRequest, GenesisResponse, genesis_builder}

module _ (T : RuntimeTypes) where
  open T use {
    State, Block, Header, Extrinsic, Hash, AccountId, AuraId, GrandpaId, KeyTypeId, InclusionMode,
    ApplyResult, InherentData, CheckInherents, Source, Validity, Metadata, EquivocationProof,
    OwnershipProof,
  }

  -- The calls of the APIs, with their arguments.
  pub data Request : Type 0 where
    -- `Core`
    version_of : Request
    execute_block : Block → Request
    initialize_block : Header → Request
    -- `Metadata`
    metadata : Request
    metadata_at_version : ℕ → Request
    metadata_versions : Request
    -- `BlockBuilder`
    apply_extrinsic : Extrinsic → Request
    finalize_block : Request
    inherent_extrinsics : InherentData → Request
    check_inherents : Block → InherentData → Request
    -- `TaggedTransactionQueue` and `OffchainWorkerApi`
    validate_transaction : Source → Extrinsic → Hash → Request
    offchain_worker : Header → Request
    -- `AuraApi`
    slot_duration : Request
    authorities : Request
    -- `SessionKeys`
    generate_session_keys : Option Bytes → Request
    decode_session_keys : Bytes → Request
    -- `GrandpaApi`
    grandpa_authorities : Request
    current_set_id : Request
    submit_report_equivocation_unsigned_extrinsic : EquivocationProof → OwnershipProof → Request
    generate_key_ownership_proof : (set_id : ℕ) → GrandpaId → Request
    -- `AccountNonceApi`
    account_nonce : AccountId → Request
    -- `TransactionPaymentApi`, `TransactionPaymentCallApi` and `GenesisBuilder`
    transaction_payment : PaymentRequest T → Request
    genesis : GenesisRequest T → Request

  -- The type of a call's answer.
  abbrev pub Response : Request → Type 0
  Response version_of = RuntimeVersion
  Response (execute_block _) = ⊤
  Response (initialize_block _) = InclusionMode
  Response metadata = Metadata
  Response (metadata_at_version _) = Option Metadata
  Response metadata_versions = List ℕ
  Response (apply_extrinsic _) = ApplyResult
  Response finalize_block = Header
  Response (inherent_extrinsics _) = List Extrinsic
  Response (check_inherents _ _) = CheckInherents
  Response (validate_transaction _ _ _) = Validity
  Response (offchain_worker _) = ⊤
  Response slot_duration = ℕ
  Response authorities = List AuraId
  Response (generate_session_keys _) = Bytes
  Response (decode_session_keys _) = Option (List (Bytes × KeyTypeId))
  Response grandpa_authorities = List (GrandpaId × ℕ)
  Response current_set_id = ℕ
  Response (submit_report_equivocation_unsigned_extrinsic _ _) = Option ⊤
  Response (generate_key_ownership_proof _ _) = Option OwnershipProof
  Response (account_nonce _) = ℕ
  Response (transaction_payment request) = PaymentResponse T request
  Response (genesis request) = GenesisResponse T request

  module _ (F : RuntimeFrame T) where
    unfoldable pub runtime_api : (request : Request) → State → Response request × State
    unfolding payment_api genesis_builder
    runtime_api version_of s = (version, s)
    runtime_api (execute_block block) s = (tt, F.execute_block block s)
    runtime_api (initialize_block header) s = F.initialize_block header s
    runtime_api metadata s = (F.metadata, s)
    runtime_api (metadata_at_version at) s = (F.metadata_at_version at, s)
    runtime_api metadata_versions s = (F.metadata_versions, s)
    runtime_api (apply_extrinsic extrinsic) s = F.apply_extrinsic extrinsic s
    runtime_api finalize_block s = F.finalize_block s
    runtime_api (inherent_extrinsics inherents) s = (F.create_extrinsics inherents s, s)
    runtime_api (check_inherents block inherents) s = (F.check_extrinsics inherents block s, s)
    runtime_api (validate_transaction source tx block_hash) s =
        F.validate_transaction source tx block_hash s
    runtime_api (offchain_worker header) s = (tt, F.offchain_worker header s)
    runtime_api slot_duration s = (F.aura_slot_duration s, s)
    runtime_api authorities s = (F.aura_authorities s, s)
    runtime_api (generate_session_keys seed) s = F.generate_session_keys seed s
    runtime_api (decode_session_keys encoded) s = (F.decode_into_raw_public_keys encoded, s)
    runtime_api grandpa_authorities s = (F.grandpa_authorities s, s)
    runtime_api current_set_id s = (F.current_set_id s, s)
    runtime_api (submit_report_equivocation_unsigned_extrinsic _ _) s = (none, s)
    runtime_api (generate_key_ownership_proof _ _) s = (none, s)
    runtime_api (account_nonce account) s = (F.account_nonce account s, s)
    runtime_api (transaction_payment request) s = (payment_api T F request s, s)
    runtime_api (genesis request) s = genesis_builder T F request s
