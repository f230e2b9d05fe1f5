-- ===== src/Benchmarking/Host.antt =====
-- What node/src/benchmarking.rs takes from Substrate: hashes, keys, signatures, eras, the calls of the
-- system and balances pallets, and the client.
use substrate_fabric_integra.Base.{ℕ, ⊤, String, Option, List}
use substrate_fabric_integra.Base.Effect.{Result}

-- `chain_info()`: the best block of the client's chain when it is asked
pub record ChainInfo (Hash : Type 0) : Type 0 where
  pub best_hash : Hash
  pub best_number : ℕ

-- The parts of `runtime::SignedExtra` in order; `⊤` stands for those that are made by `new()`.
pub record SignedExtra (Era : Type 0) : Type 0 where
  pub check_non_zero_sender : ⊤
  pub check_spec_version : ⊤
  pub check_tx_version : ⊤
  pub check_genesis : ⊤
  pub check_era : Era
  pub check_nonce : ℕ
  pub check_weight : ⊤
  pub charge_transaction_payment : ℕ

-- What is signed beside the call and the extra: one part for each of the extra's.
pub record AdditionalSigned (Hash : Type 0) : Type 0 where
  pub of_non_zero_sender : ⊤
  pub of_spec_version : ℕ
  pub of_tx_version : ℕ
  pub of_genesis : Hash
  pub of_era : Hash
  pub of_nonce : ⊤
  pub of_weight : ⊤
  pub of_transaction_payment : ⊤

pub record Host : Type 1 where
  pub Hash : Type 0
  pub Pair : Type 0
  pub AccountId : Type 0
  pub Signature : Type 0
  pub Bytes : Type 0
  pub Era : Type 0
  pub RuntimeCall : Type 0
  -- `AccountId32::from(sender.public())`
  pub account : Pair → AccountId
  pub sign : Pair → Bytes → Signature
  -- `Sr25519Keyring::Bob.pair()`
  pub bob : Pair
  -- `Era::mortal(period, current)`
  pub mortal : ℕ → ℕ → Era
  -- `SystemCall::remark` and `BalancesCall::transfer_keep_alive`
  pub remark : List ℕ → RuntimeCall
  pub transfer_keep_alive : AccountId → ℕ → RuntimeCall
  -- the bytes that `SignedPayload::using_encoded` hands on
  pub encode : RuntimeCall → SignedExtra Era → AdditionalSigned Hash → Bytes

-- The client, as the code asks it: the genesis hash, then the best block twice, between which the
-- chain may grow.
pub record Client (H : Host) : Type 0 where
  pub genesis : Result String (Option H.Hash)
  pub info_for_hash : ChainInfo H.Hash
  pub info_for_number : ChainInfo H.Hash
