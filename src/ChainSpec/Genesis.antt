-- ===== src/ChainSpec/Genesis.antt =====
-- `testnet_genesis` of node/src/chain_spec.rs.
use substrate_fabric_integra.Base.{ℕ, Bool, Option, some, List, map}
use substrate_fabric_integra.ChainSpec.Keys.{Keys}

-- The fields of the JSON object, by pallet.
pub record Genesis (K : Keys) : Type 0 where
  pub balances : List (K.AccountId × ℕ)
  pub aura_authorities : List K.aura.Public
  pub grandpa_authorities : List (K.grandpa.Public × ℕ)
  pub sudo_key : Option K.AccountId

-- `1u64 << 60`
abbrev pub endowment : ℕ
endowment = 1152921504606846976

module _ (K : Keys) where
  unfoldable pub testnet_genesis :
      List (K.aura.Public × K.grandpa.Public) → K.AccountId → List K.AccountId → Bool → Genesis K
  testnet_genesis initial_authorities root_key endowed_accounts _enable_println = record {
    balances = map (λ k. (k, endowment)) endowed_accounts;
    aura_authorities = map (λ (aura, _). aura) initial_authorities;
    grandpa_authorities = map (λ (_, grandpa). (grandpa, 1)) initial_authorities;
    sudo_key = some root_key;
  }
