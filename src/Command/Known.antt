-- ===== src/Command/Known.antt =====
-- The chain specifications that `load_spec` of node/src/command.rs knows by name are always made.
use substrate_fabric_integra.Base.{ℕ, ◌≡◌, ◌⊎◌, inl, inr, String, some, List}
use substrate_fabric_integra.Base.Effect.{ok}
use substrate_fabric_integra.ChainSpec.Keys.{Keys, Outcome}
use substrate_fabric_integra.ChainSpec.Config.{
  ChainSpec, development_authorities, development_accounts, local_authorities, local_accounts,
}
use substrate_fabric_integra.ChainSpec.Accepted.{IsAccepted}
use substrate_fabric_integra.ChainSpec.Laws.{
  IsSound, AllDerive, development_config-IsAccepted, local_testnet_config-IsAccepted,
}
use substrate_fabric_integra.Command.LoadSpec.{load_spec}

module _ (K : Keys) (code : List ℕ) (from_json_file : String → Outcome (ChainSpec K)) where
  pub load_spec-IsAccepted :
      IsSound K development_accounts
      → IsSound K local_accounts
      → AllDerive K development_authorities development_accounts
      → AllDerive K local_authorities local_accounts
      → (id : String) → (id ≡ "dev") ⊎ ((id ≡ "") ⊎ (id ≡ "local"))
      → (c : ChainSpec K) × (load_spec K (some code) from_json_file id ≡ ok c)
        × (c.code ≡ code)
        × IsAccepted K c.genesis_config_patch
  unfolding load_spec
  load_spec-IsAccepted dev_sound local_sound dev_derive local_derive id (inl dev) =
      let (c, made, same, accepted, total) =
        development_config-IsAccepted K dev_sound code dev_derive in
      (c, rw dev made, same, accepted)
  load_spec-IsAccepted dev_sound local_sound dev_derive local_derive id (inr (inl bare)) =
      let (c, made, same, accepted, total) =
        local_testnet_config-IsAccepted K local_sound code local_derive in
      (c, rw bare made, same, accepted)
  load_spec-IsAccepted dev_sound local_sound dev_derive local_derive id (inr (inr loc)) =
      let (c, made, same, accepted, total) =
        local_testnet_config-IsAccepted K local_sound code local_derive in
      (c, rw loc made, same, accepted)
