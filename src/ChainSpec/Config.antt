-- ===== src/ChainSpec/Config.antt =====
-- `development_config` and `local_testnet_config` of node/src/chain_spec.rs.
use substrate_fabric_integra.Base.{ℕ, String, true, Option, List, [], ◌∷◌}
use substrate_fabric_integra.Base.Effect.{ok}
use substrate_fabric_integra.Base.Outcome.{or_return, for_each, ◌>>=◌}
use substrate_fabric_integra.ChainSpec.Keys.{
  Keys, Outcome, get_account_id_from_seed, authority_keys_from_seed,
}
use substrate_fabric_integra.ChainSpec.Genesis.{Genesis, testnet_genesis}

-- `sc_service::ChainType`, as far as it is used
pub data ChainType : Type 0 where
  development local : ChainType

-- What the builder of a chain specification is given.
pub record ChainSpec (K : Keys) : Type 0 where
  pub code : List ℕ
  pub name : String
  pub id : String
  pub chain_type : ChainType
  pub genesis_config_patch : Genesis K

abbrev pub development_authorities : List String
development_authorities = "Alice" ∷ []

abbrev pub development_accounts : List String
development_accounts = "Alice" ∷ "Bob" ∷ "Alice//stash" ∷ "Bob//stash" ∷ []

abbrev pub local_authorities : List String
local_authorities = "Alice" ∷ "Bob" ∷ []

abbrev pub local_accounts : List String
local_accounts =
    "Alice" ∷ "Bob" ∷ "Charlie" ∷ "Dave" ∷ "Eve" ∷ "Ferdie" ∷ "Alice//stash" ∷ "Bob//stash"
    ∷ "Charlie//stash" ∷ "Dave//stash" ∷ "Eve//stash" ∷ "Ferdie//stash" ∷ []

module _ (K : Keys) where
  -- The three arguments of `testnet_genesis`, in the order in which they are computed.
  unfoldable pub genesis_from_seeds : List String → String → List String → Outcome (Genesis K)
  unfolding get_account_id_from_seed authority_keys_from_seed testnet_genesis
  genesis_from_seeds authorities root accounts = do
    initial_authorities ← for_each (authority_keys_from_seed K) authorities
    root_key ← get_account_id_from_seed K root
    endowed_accounts ← for_each (get_account_id_from_seed K) accounts
    ok (testnet_genesis K initial_authorities root_key endowed_accounts true)

  abbrev pub development_spec : List ℕ → Genesis K → ChainSpec K
  development_spec code genesis = record {
    code = code;
    name = "Development";
    id = "dev";
    chain_type = development;
    genesis_config_patch = genesis;
  }

  abbrev pub local_testnet_spec : List ℕ → Genesis K → ChainSpec K
  local_testnet_spec code genesis = record {
    code = code;
    name = "Local Testnet";
    id = "local_testnet";
    chain_type = local;
    genesis_config_patch = genesis;
  }

  -- `WASM_BINARY`, which the build makes, is an argument.
  unfoldable pub development_config : Option (List ℕ) → Outcome (ChainSpec K)
  unfolding genesis_from_seeds
  development_config wasm_binary = do
    code ← or_return wasm_binary "Development wasm not available"
    genesis ← genesis_from_seeds development_authorities "Alice" development_accounts
    ok (development_spec code genesis)

  unfoldable pub local_testnet_config : Option (List ℕ) → Outcome (ChainSpec K)
  unfolding genesis_from_seeds
  local_testnet_config wasm_binary = do
    code ← or_return wasm_binary "Development wasm not available"
    genesis ← genesis_from_seeds local_authorities "Alice" local_accounts
    ok (local_testnet_spec code genesis)
