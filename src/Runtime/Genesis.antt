-- ===== src/Runtime/Genesis.antt =====
-- The genesis states of node/src/chain_spec.rs, built by the `GenesisBuilder` of runtime/src/lib.rs and
-- seen through its other APIs.
use mathlib.Core.List.{map-map}
use substrate_fabric_integra.Base.{ℕ, ◌≡◌, ◌∙◌, ap, inl, inr, arith, String, some, List, map}
use substrate_fabric_integra.Base.Effect.{ok, Result-cases}
use substrate_fabric_integra.Base.Outcome.{for_each}
use substrate_fabric_integra.ChainSpec.Keys.{Keys, authority_keys_from_seed}
use substrate_fabric_integra.ChainSpec.Genesis.{Genesis, testnet_genesis}
use substrate_fabric_integra.ChainSpec.Config.{
  ChainSpec, local_authorities, local_accounts, genesis_from_seeds, local_testnet_config,
}
use substrate_fabric_integra.ChainSpec.Accepted.{IsAccepted}
use substrate_fabric_integra.ChainSpec.Laws.{IsSound, AllDerive, local_testnet_config-IsAccepted}
use substrate_fabric_integra.Runtime.ApiFrame.{RuntimeTypes, Bytes, RuntimeFrame}
use substrate_fabric_integra.Runtime.GenesisApi.{build_config}
use substrate_fabric_integra.Runtime.Api.{authorities, grandpa_authorities, runtime_api, genesis}

-- How a genesis state is written, and the runtime's ids of the authorities' keys.
pub record GenesisCoding (K : Keys) (T : RuntimeTypes) : Type 0 where
  pub to_json : Genesis K → Bytes
  pub aura_id : K.aura.Public → T.AuraId
  pub grandpa_id : K.grandpa.Public → T.GrandpaId

module _ (K : Keys) (T : RuntimeTypes) (F : RuntimeFrame T) (C : GenesisCoding K T) where
  -- The builder sets the authorities of both engines as an accepted genesis state lists them.
  pub record IsLawfulBuilder : Type 0 where
    pub aura :
        (g : Genesis K) (s : T.State)
        → IsAccepted K g
        → F.aura_authorities (F.build_config (C.to_json g) s).1 ≡ map C.aura_id g.aura_authorities
    pub grandpa :
        (g : Genesis K) (s : T.State)
        → IsAccepted K g
        → F.grandpa_authorities (F.build_config (C.to_json g) s).1
          ≡ map (λ (key, weight). (C.grandpa_id key, weight)) g.grandpa_authorities

module _ (K : Keys) where
  -- The authorities of a genesis state are those that its seeds derive.
  genesis_from_seeds-ok :
      (seeds : List String) (root : String) (accounts : List String) {g : Genesis K}
      → genesis_from_seeds K seeds root accounts ≡ ok g
      → (auths : List (K.aura.Public × K.grandpa.Public)) × (for_each
            (authority_keys_from_seed K)
            seeds
          ≡ ok auths)
        × (g.aura_authorities ≡ map (λ (aura, _). aura) auths)
        × (g.grandpa_authorities ≡ map (λ (_, grandpa). (grandpa, 1)) auths)
  unfolding genesis_from_seeds testnet_genesis
  genesis_from_seeds-ok seeds root accounts {g} h =
      elim (Result-cases (for_each (authority_keys_from_seed K) seeds)) [
        | inl (auths, made) ↦ (auths, made, ground arith, ground arith)
        | inr (e, failed) ↦ absurd (ground arith)
      ]

  local_testnet_config-ok :
      (code : List ℕ) {c : ChainSpec K}
      → local_testnet_config K (some code) ≡ ok c
      → genesis_from_seeds K local_authorities "Alice" local_accounts ≡ ok c.genesis_config_patch
  unfolding local_testnet_config
  local_testnet_config-ok code h = ground arith

module _ (K : Keys) (T : RuntimeTypes) (F : RuntimeFrame T) (C : GenesisCoding K T) where
  -- If the seeds of its accounts derive different accounts, all seeds of the local test network derive their
  -- keys, and the genesis builder sets the authorities that an accepted state lists, then the
  -- runtime APIs of a chain begun from that network's specification answer with the Aura keys and,
  -- each of weight one, the GRANDPA keys that the seeds of its authorities derive, in their order.
  pub runtime_api-local_testnet :
      IsLawfulBuilder K T F C
      → IsSound K local_accounts
      → (code : List ℕ) → AllDerive K local_authorities local_accounts
      → (s : T.State)
      → (c : ChainSpec K) × (auths : List (K.aura.Public × K.grandpa.Public))
        × (local_testnet_config K (some code) ≡ ok c)
        × (for_each (authority_keys_from_seed K) local_authorities ≡ ok auths)
        × (let begun =
              (runtime_api T F (genesis (build_config (C.to_json c.genesis_config_patch))) s).1 in
            ((runtime_api T F authorities begun).0 ≡ map (λ (aura, _). C.aura_id aura) auths)
            × ((runtime_api T F grandpa_authorities begun).0
                ≡ map (λ (_, grandpa). (C.grandpa_id grandpa, 1)) auths))
  unfolding runtime_api
  runtime_api-local_testnet L sound code derive s =
      let (c, made, _, accepted, _) = local_testnet_config-IsAccepted K sound code derive in
      let (auths, keys, aura, grandpa) =
        genesis_from_seeds-ok K local_authorities "Alice" local_accounts
          (local_testnet_config-ok K code made) in
      (
        c,
        auths,
        made,
        keys,
        (
          L.aura c.genesis_config_patch s accepted
              ∙ ap (map C.aura_id) aura
              ∙ map-map C.aura_id (λ (aura, _). aura) auths,
          L.grandpa c.genesis_config_patch s accepted
              ∙ ap (map (λ (key, weight). (C.grandpa_id key, weight))) grandpa
              ∙ map-map (λ (key, weight). (C.grandpa_id key, weight)) (λ (_, grandpa). (grandpa, 1))
                  auths,
        ),
      )
