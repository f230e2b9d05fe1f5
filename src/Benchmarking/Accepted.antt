-- ===== src/Benchmarking/Accepted.antt =====
-- When the runtime's signed extensions accept an extrinsic of node/src/benchmarking.rs.
use substrate_fabric_integra.Base.{
  ℕ, ◌+◌, ◌^◌, ◌≤◌, ◌<◌, ◌≡◌, refl, sym, ap, ◌∙◌, Bool, true, false, Option, some, arith,
}
use substrate_fabric_integra.Base.Effect.{ok}
use substrate_fabric_integra.Runtime.Params.{RuntimeVersion, block_hash_count, version}
use substrate_fabric_integra.Benchmarking.Period.{period, double_until, checked_next_power_of_two}
use substrate_fabric_integra.Benchmarking.Host.{Host, Client, AdditionalSigned}
use substrate_fabric_integra.Benchmarking.Extrinsic.{
  UncheckedExtrinsic, signed_extrinsic, create_benchmark_extrinsic,
}

module _ (H : Host) where
  -- What the runtime knows when it checks an extrinsic, and how it reads eras and signatures.
  pub record Chain : Type 0 where
    pub runtime_version : RuntimeVersion
    pub genesis_hash : H.Hash
    -- the hashes of the chain's blocks, those that the runtime keeps, and the block that it executes
    pub canonical : ℕ → H.Hash
    pub hash_at : ℕ → Option H.Hash
    pub current : ℕ
    -- `Era::birth`: the block in which a transaction with this era was made
    pub birth : H.Era → ℕ → ℕ
    pub verify : H.Signature → H.Bytes → H.AccountId → Bool
    pub nonce : H.AccountId → ℕ
    -- `CheckNonZeroSender`, `CheckWeight` and `ChargeTransactionPayment`: whether an account is the zero
    -- account, the block and a single extrinsic's limits leave room for an extrinsic, and its signer
    -- can pay for it
    pub is_zero : H.AccountId → Bool
    pub has_room : UncheckedExtrinsic H → Bool
    pub can_pay : UncheckedExtrinsic H → Bool

  -- A signature verifies for its signer. An era with a power of two up to 4096 for its period, of
  -- at least 4, is read as begun at the block for which it was made, for as many blocks as its
  -- period. The runtime keeps the hashes of the last `BlockHashCount` blocks.
  pub record IsLawful (C : Chain) : Type 0 where
    pub verify-sign : (k : H.Pair) (m : H.Bytes) → C.verify (H.sign k m) m (H.account k) ≡ true
    pub birth-mortal :
        (p b c j : ℕ)
        → p ≡ 2 ^ j
        → 4 ≤ p
        → p ≤ 4096
        → b ≤ c
        → c < b + p
        → C.birth (H.mortal p b) c ≡ b
    pub kept :
        (n : ℕ)
        → n < C.current
        → C.current ≤ n + block_hash_count
        → C.hash_at n ≡ some (C.canonical n)

  -- What the extensions add to the signed payload, with the hash of the era's first block.
  abbrev pub recomputed : Chain → H.Hash → AdditionalSigned H.Hash
  recomputed C era_hash = record {
    of_non_zero_sender = tt;
    of_spec_version = C.runtime_version.spec_version;
    of_tx_version = C.runtime_version.transaction_version;
    of_genesis = C.genesis_hash;
    of_era = era_hash;
    of_nonce = tt;
    of_weight = tt;
    of_transaction_payment = tt;
  }

  -- The checks of what is signed: the nonce is the account's next, the era's first block is known,
  -- and the signature is over the call, the extra, and what the runtime adds of its own, its versions
  -- and its genesis block among it.
  pub record Verified (C : Chain) (xt : UncheckedExtrinsic H) : Type 0 where
    pub nonce : xt.extra.check_nonce ≡ C.nonce xt.address
    pub era_hash : H.Hash
    pub era_known : C.hash_at (C.birth xt.extra.check_era C.current) ≡ some era_hash
    pub signed :
        C.verify xt.signature (H.encode xt.call xt.extra (recomputed C era_hash)) xt.address ≡ true

  -- All checks of the eight signed extensions.
  pub record Accepts (C : Chain) (xt : UncheckedExtrinsic H) : Type 0 where
    pub non_zero_sender : C.is_zero xt.address ≡ false
    pub verified : Verified C xt
    pub weighed : C.has_room xt ≡ true
    pub paid : C.can_pay xt ≡ true

period_default : period block_hash_count ≡ 2048
unfolding period double_until checked_next_power_of_two
period_default = refl

module _ (H : Host) where
  -- The extrinsic as in the theorem below, as far as what is signed is checked.
  pub create_benchmark_extrinsic-Verified :
      (C : Chain H)
      → IsLawful H C
      → (client : Client H) (sender : H.Pair) (call : H.RuntimeCall) (nonce : ℕ)
      → C.runtime_version ≡ version
      → client.genesis ≡ ok (some C.genesis_hash)
      → client.info_for_hash.best_hash ≡ C.canonical client.info_for_number.best_number
      → client.info_for_number.best_number < C.current
      → C.current < client.info_for_number.best_number + 2048
      → C.nonce (H.account sender) ≡ nonce
      → (xt : UncheckedExtrinsic H) × (create_benchmark_extrinsic H client sender call nonce
          ≡ ok xt)
        × (xt.call ≡ call)
        × (xt.address ≡ H.account sender)
        × (xt.extra.charge_transaction_payment ≡ 0)
        × Verified H C xt
  unfolding create_benchmark_extrinsic
  create_benchmark_extrinsic-Verified C L client sender call nonce version_same gen same after
        before next =
      let n = client.info_for_number.best_number in
      let p = period block_hash_count in
      let p_default : p ≡ 2048 = period_default in
      let born : C.birth (H.mortal p n) C.current ≡ n =
        L.birth-mortal p n C.current 11 p_default (omega arith) (omega arith) (omega arith)
          (omega arith) in
      (
        signed_extrinsic H C.genesis_hash client.info_for_hash.best_hash n sender call nonce,
        rw gen refl,
        refl,
        refl,
        refl,
        record {
          nonce = sym next;
          era_hash = client.info_for_hash.best_hash;
          era_known = rw (born, same) (L.kept n after (omega arith));
          signed = rw version_same (L.verify-sign sender _);
        },
      )

  -- With lawful signatures, eras and block hashes, and a client of this runtime that knows its
  -- genesis block and whose best number and best hash, read one after the other, belong to one
  -- block, the extrinsic is built, carries the call, the sender's account and no tip, and passes all
  -- signed extensions of the runtime in each of the next 2047 blocks, as long as the nonce is the
  -- account's, the sender is not the zero account, and the block has room for an extrinsic of the
  -- sender with this call and no tip, which the sender can pay: the hash that it signs is kept until
  -- then.
  pub create_benchmark_extrinsic-Accepts :
      (C : Chain H)
      → IsLawful H C
      → (client : Client H) (sender : H.Pair) (call : H.RuntimeCall) (nonce : ℕ)
      → C.runtime_version ≡ version
      → client.genesis ≡ ok (some C.genesis_hash)
      → client.info_for_hash.best_hash ≡ C.canonical client.info_for_number.best_number
      → client.info_for_number.best_number < C.current
      → C.current < client.info_for_number.best_number + 2048
      → C.nonce (H.account sender) ≡ nonce
      → C.is_zero (H.account sender) ≡ false
      → ((xt : UncheckedExtrinsic H)
          → xt.call ≡ call
          → xt.address ≡ H.account sender
          → xt.extra.charge_transaction_payment ≡ 0
          → (C.has_room xt ≡ true) × (C.can_pay xt ≡ true))
      → (xt : UncheckedExtrinsic H) × (create_benchmark_extrinsic H client sender call nonce
          ≡ ok xt)
        × (xt.call ≡ call)
        × (xt.address ≡ H.account sender)
        × (xt.extra.charge_transaction_payment ≡ 0)
        × Accepts H C xt
  create_benchmark_extrinsic-Accepts C L client sender call nonce version_same gen same after before
        next non_zero affords =
      let (xt, built, calls, own, untipped, verified) =
        create_benchmark_extrinsic-Verified C L client sender call nonce version_same gen same after
          before next in
      let (room, pays) = affords xt calls own untipped in
      (
        xt,
        built,
        calls,
        own,
        untipped,
        record {
          non_zero_sender = ap C.is_zero own ∙ non_zero;
          verified = verified;
          weighed = room;
          paid = pays;
        },
      )
