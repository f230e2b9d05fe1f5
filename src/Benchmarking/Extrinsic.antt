-- ===== src/Benchmarking/Extrinsic.antt =====
-- The extrinsics of node/src/benchmarking.rs and their builders.
use substrate_fabric_integra.Base.{ℕ, String, ◌<>◌, Option, none, []}
use substrate_fabric_integra.Base.Effect.{Result, ok, err}
use substrate_fabric_integra.Base.Outcome.{Failure, expect, ◌>>=◌}
use substrate_fabric_integra.Runtime.Params.{block_hash_count, version}
use substrate_fabric_integra.Benchmarking.Period.{period}
use substrate_fabric_integra.Benchmarking.Host.{Host, Client, SignedExtra, AdditionalSigned}

module _ (H : Host) where
  open H use {Hash, Pair, AccountId, Signature, Era, RuntimeCall}

  -- `runtime::UncheckedExtrinsic::new_signed`
  pub record UncheckedExtrinsic : Type 0 where
    pub call : RuntimeCall
    pub address : AccountId
    pub signature : Signature
    pub extra : SignedExtra Era

  -- `.ok().flatten()`
  abbrev ok_flatten : {A : Type 0} → Result String (Option A) → Option A
  ok_flatten (ok o) = o
  ok_flatten (err _) = none

  abbrev pub extra_for : Era → ℕ → SignedExtra Era
  extra_for era nonce = record {
    check_non_zero_sender = tt;
    check_spec_version = tt;
    check_tx_version = tt;
    check_genesis = tt;
    check_era = era;
    check_nonce = nonce;
    check_weight = tt;
    charge_transaction_payment = 0;
  }

  abbrev pub additional_for : Hash → Hash → AdditionalSigned Hash
  additional_for genesis_hash best_hash = record {
    of_non_zero_sender = tt;
    of_spec_version = version.spec_version;
    of_tx_version = version.transaction_version;
    of_genesis = genesis_hash;
    of_era = best_hash;
    of_nonce = tt;
    of_weight = tt;
    of_transaction_payment = tt;
  }

  -- The extrinsic, once the hashes and the best block are known.
  abbrev pub signed_extrinsic : Hash → Hash → ℕ → Pair → RuntimeCall → ℕ → UncheckedExtrinsic
  signed_extrinsic genesis_hash best_hash best_block sender call nonce =
      let extra = extra_for (H.mortal (period block_hash_count) best_block) nonce in
      let raw_payload = H.encode call extra (additional_for genesis_hash best_hash) in
      record {
        call = call;
        address = H.account sender;
        signature = H.sign sender raw_payload;
        extra = extra;
      }

  unfoldable pub create_benchmark_extrinsic :
      Client H → Pair → RuntimeCall → ℕ → Result (Failure String) UncheckedExtrinsic
  create_benchmark_extrinsic client sender call nonce = do
    genesis_hash ← expect (ok_flatten client.genesis) "Genesis block exists; qed"
    let best_hash = client.info_for_hash.best_hash
    let best_block = client.info_for_number.best_number
    ok (signed_extrinsic genesis_hash best_hash best_block sender call nonce)

  -- The `ExtrinsicBuilder`s: each names a pallet and an extrinsic, and builds one for a nonce.
  pub record ExtrinsicBuilder : Type 0 where
    pub pallet : String
    pub extrinsic : String
    pub build : ℕ → Result (Failure String) UncheckedExtrinsic

  unfoldable pub remark_builder : Client H → ExtrinsicBuilder
  unfolding create_benchmark_extrinsic
  remark_builder client = record {
    pallet = "system";
    extrinsic = "remark";
    build = λ nonce. create_benchmark_extrinsic client H.bob (H.remark []) nonce;
  }

  unfoldable pub transfer_keep_alive_builder : Client H → AccountId → ℕ → ExtrinsicBuilder
  unfolding create_benchmark_extrinsic
  transfer_keep_alive_builder client dest value = record {
    pallet = "balances";
    extrinsic = "transfer_keep_alive";
    build =
        λ nonce. create_benchmark_extrinsic client H.bob (H.transfer_keep_alive dest value) nonce;
  }

-- `inherent_benchmark_data`: the timestamp provider and the printing of its error are Substrate's.
module _ {E Data : Type 0} (provide_inherent_data : ℕ → Data → Result E Data)
    (debug : E → String) where
  abbrev map_err : Result E Data → Result String Data
  map_err (ok inherent_data) = ok inherent_data
  map_err (err e) = err ("creating inherent data: " <> debug e)

  unfoldable pub inherent_benchmark_data : Data → Result String Data
  inherent_benchmark_data inherent_data = map_err (provide_inherent_data 0 inherent_data)
