-- ===== src/Command/LoadSpec.antt =====
-- `SubstrateCli::load_spec` of node/src/command.rs.
use text.Mathlib.TextEquality.{eq_iff}
use substrate_fabric_integra.Base.{
  ℕ, ◌≡◌, ◌≢◌, ◌⊎◌, inl, inr, sym, ◌∙◌, String, Option, List, arith, if◌then◌else◌, ◌||◌,
}
use substrate_fabric_integra.Base.Texts.{str_eq, str_eq_cases}
use substrate_fabric_integra.Base.Effect.{ok}
use substrate_fabric_integra.ChainSpec.Keys.{Keys, Outcome}
use substrate_fabric_integra.ChainSpec.Config.{
  ChainSpec, development, local, development_config, local_testnet_config,
}

-- `ChainSpec::from_json_file`, which is Substrate's, is an argument.
module _ (K : Keys) (wasm_binary : Option (List ℕ))
    (from_json_file : String → Outcome (ChainSpec K)) where
  unfoldable pub load_spec : String → Outcome (ChainSpec K)
  load_spec id =
      if str_eq id "dev"
      then development_config K wasm_binary
      else if str_eq id "" || str_eq id "local"
      then local_testnet_config K wasm_binary
      else from_json_file id

  development_config_named :
      {c : ChainSpec K}
      → development_config K wasm_binary ≡ ok c
      → (c.id ≡ "dev") × (c.chain_type ≡ development)
  unfolding development_config
  development_config_named h = ground arith

  local_testnet_config_named :
      {c : ChainSpec K}
      → local_testnet_config K wasm_binary ≡ ok c
      → (c.id ≡ "local_testnet") × (c.chain_type ≡ local)
  unfolding local_testnet_config
  local_testnet_config_named h = ground arith

  -- A specification that is loaded is one of three: a development chain of the id `dev`, for the id
  -- `dev`; a local chain of the id `local_testnet`, for `local` and the empty id; or what the file
  -- that the id names holds, for every other id.
  pub load_spec_named :
      (id : String) (c : ChainSpec K)
      → load_spec id ≡ ok c
      → ((id ≡ "dev") × (c.id ≡ id) × (c.chain_type ≡ development))
        ⊎ ((((id ≡ "") ⊎ (id ≡ "local")) × (c.id ≡ "local_testnet") × (c.chain_type ≡ local))
            ⊎ ((id ≢ "dev") × (id ≢ "") × (id ≢ "local") × (from_json_file id ≡ ok c)))
  unfolding load_spec
  load_spec_named id c h = elim (str_eq_cases id "dev") [
    | inl dev ↦
        let (named, kind) = development_config_named (rw dev at h) in
        inl (dev, named ∙ sym dev, kind)
    | inr not_dev ↦ elim (str_eq_cases id "") [
      | inl bare ↦
          let (named, kind) = local_testnet_config_named (rw bare at h) in
          inr (inl (inl bare, named, kind))
      | inr not_bare ↦ elim (str_eq_cases id "local") [
        | inl loc ↦
            let (named, kind) = local_testnet_config_named (rw loc at h) in
            inr (inl (inr loc, named, kind))
        | inr not_local ↦ inr (
            inr (
              not_dev,
              not_bare,
              not_local,
              ground (arith, eq_iff id "dev", eq_iff id "", eq_iff id "local"),
            ))
      ]
    ]
  ]
