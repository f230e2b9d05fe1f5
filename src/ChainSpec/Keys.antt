-- ===== src/ChainSpec/Keys.antt =====
-- The keys of node/src/chain_spec.rs, which are derived from seeds. The signature schemes are
-- sp_core's, so they are parameters.
use substrate_fabric_integra.Base.{String, ◌<>◌, Option}
use substrate_fabric_integra.Base.Effect.{Result, ok}
use substrate_fabric_integra.Base.Outcome.{Failure, expect, ◌>>=◌}

-- A `TPublic` with its `Pair`.
pub record Scheme : Type 1 where
  pub Pair : Type 0
  pub Public : Type 0
  -- `Pair::from_string(_, None)`
  pub from_string : String → Option Pair
  pub public : Pair → Public

pub record Keys : Type 1 where
  pub sr25519 : Scheme
  pub aura : Scheme
  pub grandpa : Scheme
  pub AccountId : Type 0
  -- `AccountPublic::from(_).into_account()`
  pub into_account : sr25519.Public → AccountId

abbrev pub Outcome : Type 0 → Type 0
Outcome A = Result (Failure String) A

unfoldable pub get_from_seed : (S : Scheme) → String → Outcome S.Public
get_from_seed S seed = do
  pair ← expect (S.from_string ("//" <> seed)) "static values are valid; qed"
  ok (S.public pair)

module _ (K : Keys) where
  unfoldable pub get_account_id_from_seed : String → Outcome K.AccountId
  unfolding get_from_seed
  get_account_id_from_seed seed = do
    public ← get_from_seed K.sr25519 seed
    ok (K.into_account public)

  unfoldable pub authority_keys_from_seed : String → Outcome (K.aura.Public × K.grandpa.Public)
  unfolding get_from_seed
  authority_keys_from_seed s = do
    aura ← get_from_seed K.aura s
    grandpa ← get_from_seed K.grandpa s
    ok (aura, grandpa)
