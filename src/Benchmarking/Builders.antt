-- ===== src/Benchmarking/Builders.antt =====
-- The extrinsics of the two builders of node/src/benchmarking.rs.
use substrate_fabric_integra.Base.{ℕ, ◌+◌, ◌<◌, ◌≡◌, some, [], false, true, ◌⊎◌, inl, inr}
use substrate_fabric_integra.Base.Effect.{ok}
use substrate_fabric_integra.Runtime.Params.{version}
use substrate_fabric_integra.Benchmarking.Host.{Host, Client}
use substrate_fabric_integra.Benchmarking.Extrinsic.{
  UncheckedExtrinsic, remark_builder, transfer_keep_alive_builder,
}
use substrate_fabric_integra.Benchmarking.Accepted.{
  Chain, IsLawful, Accepts, create_benchmark_extrinsic-Accepts,
}

module _ (H : Host) where
  -- With lawful signatures, eras and block hashes, Bob's next nonce, and a client of this runtime that
  -- knows its genesis block and whose best number and best hash belong to one block, both builders
  -- build: the one an empty remark, the other the transfer that it was made with. Either extrinsic
  -- passes all signed extensions of the runtime in each of the next 2047 blocks, if Bob is not the
  -- zero account, the block has room for it, and Bob can pay for it.
  pub builders-Accepts :
      (C : Chain H)
      → IsLawful H C
      → (client : Client H) (dest : H.AccountId) (value nonce : ℕ) → C.runtime_version ≡ version
      → client.genesis ≡ ok (some C.genesis_hash)
      → client.info_for_hash.best_hash ≡ C.canonical client.info_for_number.best_number
      → client.info_for_number.best_number < C.current
      → C.current < client.info_for_number.best_number + 2048
      → C.nonce (H.account H.bob) ≡ nonce
      → C.is_zero (H.account H.bob) ≡ false
      → ((xt : UncheckedExtrinsic H)
          → (xt.call ≡ H.remark []) ⊎ (xt.call ≡ H.transfer_keep_alive dest value)
          → xt.address ≡ H.account H.bob
          → xt.extra.charge_transaction_payment ≡ 0
          → (C.has_room xt ≡ true) × (C.can_pay xt ≡ true))
      → (remark transfer : UncheckedExtrinsic H) × ((remark_builder H client).build nonce
          ≡ ok remark)
        × ((transfer_keep_alive_builder H client dest value).build nonce ≡ ok transfer)
        × (remark.call ≡ H.remark [])
        × (transfer.call ≡ H.transfer_keep_alive dest value)
        × Accepts H C remark
        × Accepts H C transfer
  unfolding remark_builder transfer_keep_alive_builder
  builders-Accepts C L client dest value nonce current gen same after before next non_zero affords =
      let (remark, built, calls, own, untipped, accepted) =
        create_benchmark_extrinsic-Accepts H C L client H.bob (H.remark []) nonce current gen same
          after before next non_zero (λ xt called. affords xt (inl called)) in
      let (transfer, built', calls', own', untipped', accepted') =
        create_benchmark_extrinsic-Accepts H C L client H.bob (H.transfer_keep_alive dest value)
          nonce current gen same after before next non_zero
          (λ xt called. affords xt (inr called)) in
      (remark, transfer, built, built', calls, calls', accepted, accepted')
