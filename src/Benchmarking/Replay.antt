-- ===== src/Benchmarking/Replay.antt =====
-- That a benchmark extrinsic of node/src/benchmarking.rs is good for one chain of
-- runtime/src/lib.rs only.
use substrate_fabric_integra.Base.{ℕ, ◌≡◌, sym, ap, subst, ◌∙◌, true, some, arith}
use substrate_fabric_integra.Base.Effect.{ok}
use substrate_fabric_integra.Runtime.Params.{version}
use substrate_fabric_integra.Benchmarking.Host.{Host, Client, SignedExtra, AdditionalSigned}
use substrate_fabric_integra.Benchmarking.Extrinsic.{
  UncheckedExtrinsic, signed_extrinsic, create_benchmark_extrinsic,
}
use substrate_fabric_integra.Benchmarking.Accepted.{Chain, Verified}

module _ (H : Host) where
  -- A signature verifies only for what was signed, and different payloads have different bytes.
  pub record Unforgeable (C : Chain H) : Type 0 where
    pub verify_only :
        (k : H.Pair) (m other : H.Bytes)
        → C.verify (H.sign k m) other (H.account k) ≡ true
        → other ≡ m
    pub encode_injective :
        (call : H.RuntimeCall) (extra : SignedExtra H.Era) (a b : AdditionalSigned H.Hash)
        → H.encode call extra a ≡ H.encode call extra b
        → a ≡ b

  -- If signatures cannot be forged and payloads differ in their bytes, then any chain where the extrinsic
  -- that the code builds is verified, as all that accept it do, at whatever block, has the client's genesis block and the spec and
  -- transaction versions of this runtime, and the client's best hash is the hash of its block in
  -- which the era begins: the extrinsic cannot be replayed on another chain, version or fork.
  pub Verified-create_benchmark_extrinsic :
      (C : Chain H)
      → Unforgeable C
      → (client : Client H) (sender : H.Pair) (call : H.RuntimeCall) (nonce : ℕ)
        {genesis_hash : H.Hash} {xt : UncheckedExtrinsic H}
      → client.genesis ≡ ok (some genesis_hash)
      → create_benchmark_extrinsic H client sender call nonce ≡ ok xt
      → Verified H C xt
      → (C.genesis_hash ≡ genesis_hash)
        × (C.runtime_version.spec_version ≡ version.spec_version)
        × (C.runtime_version.transaction_version ≡ version.transaction_version)
        × (C.hash_at (C.birth xt.extra.check_era C.current) ≡ some client.info_for_hash.best_hash)
        × (C.nonce (H.account sender) ≡ nonce)
  unfolding create_benchmark_extrinsic
  Verified-create_benchmark_extrinsic C U client sender call nonce {genesis_hash} {xt} gen made
        accepts =
      let best_hash = client.info_for_hash.best_hash in
      let built =
        signed_extrinsic H genesis_hash best_hash client.info_for_number.best_number sender call
          nonce in
      let is_built : xt ≡ built = ground arith in
      let a : Verified H C built = subst (Verified H C) is_built accepts in
      let same = U.encode_injective call built.extra _ _ (U.verify_only sender _ _ a.signed) in
      (
        ap (λ r. r.of_genesis) same,
        ap (λ r. r.of_spec_version) same,
        ap (λ r. r.of_tx_version) same,
        ap (λ x. C.hash_at (C.birth x.extra.check_era C.current)) is_built
            ∙ a.era_known
            ∙ ap (λ r. some r.of_era) same,
        sym a.nonce,
      )
