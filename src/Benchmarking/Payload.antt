-- ===== src/Benchmarking/Payload.antt =====
-- The bytes that node/src/benchmarking.rs signs, against those that runtime/src/lib.rs verifies.
use substrate_fabric_integra.Base.{ℕ, ◌≡◌, refl, ap, ◌∙◌, some, List, [], ◌++◌}
use substrate_fabric_integra.Base.Effect.{ok}
use substrate_fabric_integra.Runtime.Params.{version}
use substrate_fabric_integra.Runtime.Extensions.{
  ExtensionFrame, IsLawfulExtensions, signed_extensions, all_additional,
}
use substrate_fabric_integra.Benchmarking.Host.{Host, Client, SignedExtra, AdditionalSigned}
use substrate_fabric_integra.Benchmarking.Extrinsic.{
  UncheckedExtrinsic, additional_for, signed_extrinsic, create_benchmark_extrinsic,
}

module _ (H : Host) (E : ExtensionFrame H.Hash) where
  -- SCALE's bytes of a tuple, part after part; `()` has none.
  abbrev pub tuple_bytes : AdditionalSigned H.Hash → List ℕ
  tuple_bytes a =
      []
      ++ (E.u32 a.of_spec_version
          ++ (E.u32 a.of_tx_version ++ (E.hash a.of_genesis ++ (E.hash a.of_era ++ []))))

  -- The bytes of the call and the extra come before those of the tuple; bytes that are too many are
  -- hashed.
  pub record Payload : Type 0 where
    pub body : H.RuntimeCall → SignedExtra H.Era → List ℕ
    pub hashed : List ℕ → H.Bytes
    pub encode_lem :
        (call : H.RuntimeCall) (extra : SignedExtra H.Era) (added : AdditionalSigned H.Hash)
        → H.encode call extra added ≡ hashed (body call extra ++ tuple_bytes added)

  additional_for-signed_extensions :
      IsLawfulExtensions E
      → (genesis_hash best_hash : H.Hash)
      → tuple_bytes (additional_for H genesis_hash best_hash)
        ≡ all_additional E signed_extensions (record {
          runtime_version = version;
          genesis_hash = genesis_hash;
          era_hash = best_hash;
        })
  unfolding all_additional signed_extensions
  additional_for-signed_extensions L genesis_hash best_hash = simp (
    L.of_non_zero_sender, L.of_spec_version, L.of_tx_version, L.of_genesis, L.of_era, L.of_nonce,
    L.of_weight, L.of_transaction_payment,
  )

  -- If the signed extensions add what they document and the client knows its genesis block, then
  -- the extrinsic is built, and what the node signs is just what the runtime verifies: the call and
  -- the extra, and what each extension of `SignedExtra` adds, in that order, with the runtime's
  -- version, the genesis hash and the best hash.
  pub signature-create_benchmark_extrinsic :
      IsLawfulExtensions E
      → (P : Payload) (client : Client H) (sender : H.Pair) (call : H.RuntimeCall) (nonce : ℕ)
        {genesis_hash : H.Hash}
      → client.genesis ≡ ok (some genesis_hash)
      → (xt : UncheckedExtrinsic H) × (create_benchmark_extrinsic H client sender call nonce
          ≡ ok xt)
        × (xt.signature
            ≡ H.sign sender (
                P.hashed (
                  P.body call xt.extra
                  ++ all_additional E signed_extensions (record {
                    runtime_version = version;
                    genesis_hash = genesis_hash;
                    era_hash = client.info_for_hash.best_hash;
                  }))))
  unfolding create_benchmark_extrinsic
  signature-create_benchmark_extrinsic L P client sender call nonce {genesis_hash} gen =
      let best_hash = client.info_for_hash.best_hash in
      let n = client.info_for_number.best_number in
      let xt = signed_extrinsic H genesis_hash best_hash n sender call nonce in
      let same = additional_for-signed_extensions L genesis_hash best_hash in
      (
        xt,
        rw gen refl,
        ap (H.sign sender) (
            P.encode_lem call xt.extra (additional_for H genesis_hash best_hash)
            ∙ ap (λ bytes. P.hashed (P.body call xt.extra ++ bytes)) same),
      )
