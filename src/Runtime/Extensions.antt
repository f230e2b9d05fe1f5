-- ===== src/Runtime/Extensions.antt =====
-- `SignedExtra` of runtime/src/lib.rs: the signed extensions of an extrinsic, in their order. What
-- each of them adds to the signed payload is FRAME's and pallet_transaction_payment's, so it is a
-- parameter.
use substrate_fabric_integra.Base.{ℕ, ◌≡◌, List, [], ◌∷◌, ◌++◌}
use substrate_fabric_integra.Runtime.Params.{RuntimeVersion}

pub data Extension : Type 0 where
  check_non_zero_sender check_spec_version check_tx_version check_genesis check_era : Extension
  check_nonce check_weight charge_transaction_payment : Extension

unfoldable pub signed_extensions : List Extension
signed_extensions =
    check_non_zero_sender ∷ check_spec_version ∷ check_tx_version ∷ check_genesis ∷ check_era
    ∷ check_nonce ∷ check_weight ∷ charge_transaction_payment ∷ []

-- What the runtime knows when it checks an extrinsic.
pub record Known (Hash : Type 0) : Type 0 where
  pub runtime_version : RuntimeVersion
  pub genesis_hash : Hash
  -- the hash of the block in which the extrinsic's era begins
  pub era_hash : Hash

pub record ExtensionFrame (Hash : Type 0) : Type 0 where
  -- SCALE's bytes
  pub u32 : ℕ → List ℕ
  pub hash : Hash → List ℕ
  -- the bytes of `SignedExtension::additional_signed`
  pub additional_signed : Extension → Known Hash → List ℕ

module _ {Hash : Type 0} (E : ExtensionFrame Hash) where
  -- The versions, the genesis block and the era's first block are signed; the other extensions add
  -- nothing.
  pub record IsLawfulExtensions : Type 0 where
    pub of_non_zero_sender : (k : Known Hash) → E.additional_signed check_non_zero_sender k ≡ []
    pub of_spec_version :
        (k : Known Hash)
        → E.additional_signed check_spec_version k ≡ E.u32 k.runtime_version.spec_version
    pub of_tx_version :
        (k : Known Hash)
        → E.additional_signed check_tx_version k ≡ E.u32 k.runtime_version.transaction_version
    pub of_genesis : (k : Known Hash) → E.additional_signed check_genesis k ≡ E.hash k.genesis_hash
    pub of_era : (k : Known Hash) → E.additional_signed check_era k ≡ E.hash k.era_hash
    pub of_nonce : (k : Known Hash) → E.additional_signed check_nonce k ≡ []
    pub of_weight : (k : Known Hash) → E.additional_signed check_weight k ≡ []
    pub of_transaction_payment :
        (k : Known Hash) → E.additional_signed charge_transaction_payment k ≡ []

  -- A tuple adds what its parts add, one after the other.
  unfoldable pub all_additional : List Extension → Known Hash → List ℕ
  all_additional [] k = []
  all_additional (e ∷ es) k = E.additional_signed e k ++ all_additional es k
