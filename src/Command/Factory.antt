-- ===== src/Command/Factory.antt =====
-- The factory of benchmark extrinsics in `run` of node/src/command.rs.
use substrate_fabric_integra.Base.{List, [], ◌∷◌}
use substrate_fabric_integra.Runtime.Params.{existential_deposit}
use substrate_fabric_integra.Benchmarking.Host.{Host, Client}
use substrate_fabric_integra.Benchmarking.Extrinsic.{
  ExtrinsicBuilder, remark_builder, transfer_keep_alive_builder,
}

module _ (H : Host) where
  -- `alice` is `Sr25519Keyring::Alice.to_account_id()`.
  unfoldable pub ext_factory : Client H → (alice : H.AccountId) → List (ExtrinsicBuilder H)
  unfolding remark_builder transfer_keep_alive_builder
  ext_factory client alice =
      remark_builder H client ∷ transfer_keep_alive_builder H client alice existential_deposit ∷ []
