-- ===== src/Runtime/ApiFrame.antt =====
-- What the runtime APIs of runtime/src/lib.rs hand their calls to: Executive, the pallets, the session
-- keys and the genesis builder are FRAME's. What a call does to the chain's state is part of its
-- answer. A panic inside FRAME, as of `execute_block` on a bad block, is no answer.
use substrate_fabric_integra.Base.{ℕ, Option, List}

pub record RuntimeTypes : Type 1 where
  pub State : Type 0
  pub Block : Type 0
  pub Header : Type 0
  pub Extrinsic : Type 0
  pub Hash : Type 0
  pub RuntimeCall : Type 0
  pub AccountId : Type 0
  pub AuraId : Type 0
  pub GrandpaId : Type 0
  pub KeyTypeId : Type 0
  pub Weight : Type 0
  pub InclusionMode : Type 0
  pub ApplyResult : Type 0
  pub InherentData : Type 0
  pub CheckInherents : Type 0
  pub Source : Type 0
  pub Validity : Type 0
  pub Metadata : Type 0
  pub EquivocationProof : Type 0
  pub OwnershipProof : Type 0
  pub DispatchInfo : Type 0
  pub FeeDetails : Type 0
  pub BuildResult : Type 0

-- Bytes, `Vec<u8>`.
abbrev pub Bytes : Type 0
Bytes = List ℕ

module _ (T : RuntimeTypes) where
  open T use {
    State, Block, Header, Extrinsic, Hash, RuntimeCall, AccountId, AuraId, GrandpaId, KeyTypeId,
    Weight, InclusionMode, ApplyResult, InherentData, CheckInherents, Source, Validity, Metadata,
    EquivocationProof, OwnershipProof, DispatchInfo, FeeDetails, BuildResult,
  }

  -- `Executive`, and the pallets as far as the APIs ask them
  pub record RuntimeFrame : Type 0 where
    pub execute_block : Block → State → State
    pub initialize_block : Header → State → InclusionMode × State
    pub apply_extrinsic : Extrinsic → State → ApplyResult × State
    pub finalize_block : State → Header × State
    pub validate_transaction : Source → Extrinsic → Hash → State → Validity × State
    pub offchain_worker : Header → State → State
    pub metadata : Metadata
    pub metadata_at_version : ℕ → Option Metadata
    pub metadata_versions : List ℕ
    pub create_extrinsics : InherentData → State → List Extrinsic
    pub check_extrinsics : InherentData → Block → State → CheckInherents
    -- `Aura::slot_duration()`, in milliseconds
    pub aura_slot_duration : State → ℕ
    pub aura_authorities : State → List AuraId
    pub generate_session_keys : Option Bytes → State → Bytes × State
    pub decode_into_raw_public_keys : Bytes → Option (List (Bytes × KeyTypeId))
    pub grandpa_authorities : State → List (GrandpaId × ℕ)
    pub current_set_id : State → ℕ
    pub account_nonce : AccountId → State → ℕ
    pub query_info : Extrinsic → ℕ → State → DispatchInfo
    pub query_fee_details : Extrinsic → ℕ → State → FeeDetails
    pub query_call_info : RuntimeCall → ℕ → State → DispatchInfo
    pub query_call_fee_details : RuntimeCall → ℕ → State → FeeDetails
    pub weight_to_fee : Weight → State → ℕ
    pub length_to_fee : ℕ → State → ℕ
    pub create_default_config : Bytes
    pub build_config : Bytes → State → BuildResult × State
