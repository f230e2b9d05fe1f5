-- ===== src/Tests/ChainRuns.antt =====
-- The chain specifications, the benchmark extrinsics and the RPC module, run.
use text.Mathlib.TextLemmas.{append_cancel_left}
use substrate_fabric_integra.Base.{
  ℕ, ◌*◌, ◌≡◌, ◌↔◌, inr, refl, String, ◌<>◌, true, Option, none, some, List, [], ◌∷◌, All,
}
use substrate_fabric_integra.Base.Effect.{ok, err}
use substrate_fabric_integra.Base.Outcome.{returned}
use substrate_fabric_integra.ChainSpec.Failures.{config_error}
use substrate_fabric_integra.ChainSpec.Keys.{Scheme, Keys, Outcome}
use substrate_fabric_integra.ChainSpec.Genesis.{testnet_genesis}
use substrate_fabric_integra.ChainSpec.Config.{
  ChainSpec, development_config, local_testnet_config, development_authorities,
  development_accounts, local_authorities, local_accounts, local_testnet_spec,
}
use substrate_fabric_integra.ChainSpec.Accepted.{IsAccepted, issuance}
use substrate_fabric_integra.ChainSpec.Laws.{
  Derives, IsSound, development_config-IsAccepted, local_testnet_config-IsAccepted,
}
use substrate_fabric_integra.Command.Known.{load_spec-IsAccepted}
use substrate_fabric_integra.Command.LoadSpec.{load_spec}

-- A seed is its own key, and a key its own account.
abbrev pub plain_scheme : Scheme
plain_scheme = record { Pair = String; Public = String; from_string = some; public = λ s. s }

abbrev pub plain_keys : Keys
plain_keys = record {
  sr25519 = plain_scheme;
  aura = plain_scheme;
  grandpa = plain_scheme;
  AccountId = String;
  into_account = λ s. s;
}

pub plain_keys-IsSound : (seeds : List String) → IsSound plain_keys seeds
plain_keys-IsSound seeds = record {
  account_injective = λ s t {p} {q} m n e f same. append_cancel_left "//" s t (cc (e, f, same));
}

pub plain-Derives : (seeds : List String) → All (Derives plain_scheme) seeds
plain-Derives [] = tt
plain-Derives (s ∷ ss) = (("//" <> s, refl), plain-Derives ss)

abbrev pub wasm : List ℕ
wasm = 0 ∷ 97 ∷ 115 ∷ 109 ∷ []

development_config-IsAccepted_example :
    (c : ChainSpec plain_keys) × (development_config plain_keys (some wasm) ≡ ok c)
    × (c.code ≡ wasm)
    × IsAccepted plain_keys c.genesis_config_patch
    × (issuance c.genesis_config_patch.balances ≡ 4 * 1152921504606846976)
development_config-IsAccepted_example =
    development_config-IsAccepted plain_keys (plain_keys-IsSound _) wasm (record {
      aura = plain-Derives development_authorities;
      grandpa = plain-Derives development_authorities;
      account = plain-Derives development_accounts;
    })

local_testnet_config-IsAccepted_example :
    (c : ChainSpec plain_keys) × (local_testnet_config plain_keys (some wasm) ≡ ok c)
    × (c.code ≡ wasm)
    × IsAccepted plain_keys c.genesis_config_patch
    × (issuance c.genesis_config_patch.balances ≡ 12 * 1152921504606846976)
local_testnet_config-IsAccepted_example =
    local_testnet_config-IsAccepted plain_keys (plain_keys-IsSound _) wasm (record {
      aura = plain-Derives local_authorities;
      grandpa = plain-Derives local_authorities;
      account = plain-Derives local_accounts;
    })

abbrev unbuilt : Option (List ℕ)
unbuilt = none

abbrev unavailable : String
unavailable = "Development wasm not available"

abbrev small_spec : ChainSpec plain_keys
small_spec =
    local_testnet_spec plain_keys wasm
      (testnet_genesis plain_keys (("a", "g") ∷ []) "r" ("r" ∷ "s" ∷ []) true)

-- Every file holds the small specification.
abbrev from_file : String → Outcome (ChainSpec plain_keys)
from_file path = ok small_spec

abbrev file_id : String
file_id = "chain.json"

load_spec-IsAccepted_example :
    (c : ChainSpec plain_keys) × (load_spec plain_keys (some wasm) from_file "local" ≡ ok c)
    × (c.code ≡ wasm)
    × IsAccepted plain_keys c.genesis_config_patch
load_spec-IsAccepted_example =
    load_spec-IsAccepted plain_keys wasm from_file (plain_keys-IsSound _) (plain_keys-IsSound _)
      (record {
        aura = plain-Derives development_authorities;
        grandpa = plain-Derives development_authorities;
        account = plain-Derives development_accounts;
      })
      (record {
        aura = plain-Derives local_authorities;
        grandpa = plain-Derives local_authorities;
        account = plain-Derives local_accounts;
      })
      "local" (inr (inr refl))

config_error_example :
    let missing : Type 0 = (unbuilt ≡ none) × (unavailable ≡ "Development wasm not available") in
    ((development_config plain_keys unbuilt ≡ err (returned unavailable)) ↔ missing)
    × ((local_testnet_config plain_keys unbuilt ≡ err (returned unavailable)) ↔ missing)
config_error_example = config_error plain_keys unbuilt unavailable
