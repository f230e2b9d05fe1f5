-- ===== src/Runtime/Types.antt =====
-- The type aliases of runtime/src/lib.rs, and what they make of the types that the runtime's APIs
-- speak of. Substrate's generic types are parameters.
use substrate_fabric_integra.Base.{ℕ, ⊤}
use substrate_fabric_integra.Benchmarking.Host.{SignedExtra}
use substrate_fabric_integra.Runtime.Calls.{Others, RuntimeCall}
use substrate_fabric_integra.Runtime.ApiFrame.{RuntimeTypes}

-- sp_core, sp_runtime, frame_system and frame_executive
pub record Primitives : Type 1 where
  pub MultiSignature : Type 0
  -- `<<S as Verify>::Signer as IdentifyAccount>::AccountId`
  pub AccountIdOf : Type 0 → Type 0
  pub MultiAddress : Type 0 → Type 0 → Type 0
  pub H256 : Type 0
  pub BlakeTwo256 : Type 0
  pub Era : Type 0
  -- `generic::Header`, `Block`, `BlockId`, `UncheckedExtrinsic` and `SignedPayload`
  pub HeaderOf : Type 0 → Type 0 → Type 0
  pub BlockOf : Type 0 → Type 0 → Type 0
  pub BlockIdOf : Type 0 → Type 0
  pub UncheckedExtrinsicOf : Type 0 → Type 0 → Type 0 → Type 0 → Type 0
  pub SignedPayloadOf : Type 0 → Type 0 → Type 0
  pub OpaqueExtrinsic : Type 0
  -- the public keys of Aura and GRANDPA
  pub AuraKey : Type 0
  pub GrandpaKey : Type 0
  -- `frame_executive::Executive`, with the block, the context and the migrations; the runtime and
  -- its pallets are one
  pub ExecutiveOf : Type 0 → Type 0 → Type 0 → Type 0
  -- `frame_system::ChainContext`
  pub ChainContext : Type 0

-- Numbers of 32 and of 128 bits are numbers.
abbrev pub BlockNumber : Type 0
BlockNumber = ℕ

abbrev pub Balance : Type 0
Balance = ℕ

abbrev pub Nonce : Type 0
Nonce = ℕ

module _ (P : Primitives) where
  abbrev pub Signature : Type 0
  Signature = P.MultiSignature

  abbrev pub AccountId : Type 0
  AccountId = P.AccountIdOf Signature

  abbrev pub Hash : Type 0
  Hash = P.H256

  abbrev pub Address : Type 0
  Address = P.MultiAddress AccountId ⊤

  abbrev pub Header : Type 0
  Header = P.HeaderOf BlockNumber P.BlakeTwo256

  -- `opaque::Block` and `opaque::BlockId`: a block of the same header with extrinsics as bytes
  abbrev pub OpaqueBlock : Type 0
  OpaqueBlock = P.BlockOf Header P.OpaqueExtrinsic

  abbrev pub OpaqueBlockId : Type 0
  OpaqueBlockId = P.BlockIdOf OpaqueBlock

  -- `opaque::SessionKeys`
  pub record SessionKeys : Type 0 where
    pub aura : P.AuraKey
    pub grandpa : P.GrandpaKey

  module _ (O : Others) where
    abbrev pub RuntimeExtrinsic : Type 0
    RuntimeExtrinsic = P.UncheckedExtrinsicOf Address (RuntimeCall O) Signature (SignedExtra P.Era)

    abbrev pub SignedPayload : Type 0
    SignedPayload = P.SignedPayloadOf (RuntimeCall O) (SignedExtra P.Era)

    abbrev pub Block : Type 0
    Block = P.BlockOf Header RuntimeExtrinsic

    abbrev pub Migrations : Type 0
    Migrations = ⊤

    abbrev pub Executive : Type 0
    Executive = P.ExecutiveOf Block P.ChainContext Migrations

    -- The types of the APIs, from those of any runtime.
    abbrev pub runtime_types : RuntimeTypes → RuntimeTypes
    runtime_types T = record T {
      Block = Block;
      Header = Header;
      Extrinsic = RuntimeExtrinsic;
      Hash = Hash;
      RuntimeCall = RuntimeCall O;
      AccountId = AccountId;
      AuraId = P.AuraKey;
      GrandpaId = P.GrandpaKey;
    }
