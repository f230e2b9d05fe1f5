-- ===== src/Tests/ClockRuns.antt =====
-- The runtime APIs and the clock of authoring, run.
use substrate_fabric_integra.Base.{
  ℕ, zero, suc, ⊤, ◌*◌, ◌+◌, ◌/◌, ◌≡◌, refl, sym, ◌∙◌, String, Bool, true, none, some, List, [],
  ◌∷◌, ◌++◌, map, All, ap, arith, if◌then◌else◌, ◌==◌, ◌&&◌, leb, ltb,
}
use substrate_fabric_integra.Base.Effect.{ok}
use substrate_fabric_integra.Base.Outcome.{for_each}
use substrate_fabric_integra.Base.Texts.{str_eq}
use substrate_fabric_integra.ChainSpec.Keys.{Scheme, Keys, authority_keys_from_seed}
use substrate_fabric_integra.ChainSpec.Config.{
  ChainSpec, local_testnet_config, local_authorities, local_accounts,
}
use substrate_fabric_integra.ChainSpec.Laws.{IsSound, Derives}
use substrate_fabric_integra.Runtime.Params.{minimum_period, slot_duration}
use substrate_fabric_integra.Runtime.Api
use substrate_fabric_integra.Runtime.ApiFrame.{RuntimeTypes, RuntimeFrame}
use substrate_fabric_integra.Runtime.GenesisApi.{build_config}
use substrate_fabric_integra.Runtime.Api.{
  authorities, grandpa_authorities, generate_key_ownership_proof, runtime_api, genesis,
}
use substrate_fabric_integra.Runtime.Genesis.{
  GenesisCoding, IsLawfulBuilder, runtime_api-local_testnet,
}
use substrate_fabric_integra.Service.Inherents.{
  Slots, IsLawfulSlots, import_inherents, author_inherents, import_inherents-author_inherents,
}
use substrate_fabric_integra.Service.Clock.{
  AuraConfig, Clock, IsLawfulClock, accepts_all, author_blocks_taken,
}
use substrate_fabric_integra.Tests.ChainRuns.{plain_scheme, plain-Derives, plain_keys-IsSound, wasm}

-- A genesis state as numbers: the Aura keys plus one, a zero, and the GRANDPA keys with their weights.
abbrev pairs : List (ℕ × ℕ) → List ℕ
pairs [] = []
pairs ((key, weight) ∷ rest) = key ∷ weight ∷ pairs rest

abbrev read_pairs : List ℕ → List (ℕ × ℕ)
read_pairs (key ∷ weight ∷ rest) = (key, weight) ∷ read_pairs rest
read_pairs _ = []

abbrev read_aura : List ℕ → List ℕ
read_aura [] = []
read_aura (zero ∷ rest) = []
read_aura (suc key ∷ rest) = key ∷ read_aura rest

abbrev read_grandpa : List ℕ → List (ℕ × ℕ)
read_grandpa [] = []
read_grandpa (zero ∷ rest) = read_pairs rest
read_grandpa (suc _ ∷ rest) = read_grandpa rest

abbrev written : List ℕ → List (ℕ × ℕ) → List ℕ
written aura grandpa = map suc aura ++ (0 ∷ pairs grandpa)

read-pairs : (ps : List (ℕ × ℕ)) → read_pairs (pairs ps) ≡ ps
read-pairs [] = refl
read-pairs (p ∷ ps) = ap (λ qs. p ∷ qs) (read-pairs ps)

read_aura-written : (keys : List ℕ) (ps : List (ℕ × ℕ)) → read_aura (written keys ps) ≡ keys
read_aura-written [] ps = refl
read_aura-written (key ∷ keys) ps = ap (λ ks. key ∷ ks) (read_aura-written keys ps)

read_grandpa-written : (keys : List ℕ) (ps : List (ℕ × ℕ)) → read_grandpa (written keys ps) ≡ ps
read_grandpa-written [] ps = read-pairs ps
read_grandpa-written (key ∷ keys) ps = read_grandpa-written keys ps

-- The engines' keys are numbers: Alice's is 1, all others' are 2.
abbrev number_scheme : Scheme
number_scheme = record {
  Pair = ℕ;
  Public = ℕ;
  from_string = λ s. some (if str_eq s "//Alice" then 1 else 2);
  public = λ n. n;
}

abbrev number_keys : Keys
number_keys = record {
  sr25519 = plain_scheme;
  aura = number_scheme;
  grandpa = number_scheme;
  AccountId = String;
  into_account = λ s. s;
}

number_keys-IsSound : (seeds : List String) → IsSound number_keys seeds
number_keys-IsSound seeds = record {
  account_injective = (plain_keys-IsSound seeds).account_injective;
}

number-Derives : (seeds : List String) → All (Derives number_scheme) seeds
number-Derives [] = tt
number-Derives (s ∷ ss) = ((_, refl), number-Derives ss)

-- A state holds the authorities of both engines.
abbrev types : RuntimeTypes
types = record {
  State = List ℕ × List (ℕ × ℕ);
  Block = ⊤;
  Header = ⊤;
  Extrinsic = ⊤;
  Hash = ⊤;
  RuntimeCall = ⊤;
  AccountId = ⊤;
  AuraId = ℕ;
  GrandpaId = ℕ;
  KeyTypeId = ⊤;
  Weight = ⊤;
  InclusionMode = ⊤;
  ApplyResult = ⊤;
  InherentData = ⊤;
  CheckInherents = ⊤;
  Source = ⊤;
  Validity = ⊤;
  Metadata = ⊤;
  EquivocationProof = ⊤;
  OwnershipProof = ℕ;
  DispatchInfo = ⊤;
  FeeDetails = ⊤;
  BuildResult = ⊤;
}

abbrev frame : RuntimeFrame types
frame = record {
  execute_block = λ block s. s;
  initialize_block = λ header s. (tt, s);
  apply_extrinsic = λ extrinsic s. (tt, s);
  finalize_block = λ s. (tt, s);
  validate_transaction = λ source tx block_hash s. (tt, s);
  offchain_worker = λ header s. s;
  metadata = tt;
  metadata_at_version = λ at. none;
  metadata_versions = 14 ∷ 15 ∷ [];
  create_extrinsics = λ inherents s. [];
  check_extrinsics = λ inherents block s. tt;
  aura_slot_duration = λ s. 6000;
  aura_authorities = λ s. s.0;
  generate_session_keys = λ seed s. ([], s);
  decode_into_raw_public_keys = λ encoded. none;
  grandpa_authorities = λ s. s.1;
  current_set_id = λ s. 0;
  account_nonce = λ account s. 0;
  query_info = λ uxt len s. tt;
  query_fee_details = λ uxt len s. tt;
  query_call_info = λ call len s. tt;
  query_call_fee_details = λ call len s. tt;
  weight_to_fee = λ weight s. 0;
  length_to_fee = λ len s. len;
  create_default_config = [];
  build_config = λ config s. (tt, (read_aura config, read_grandpa config));
}

abbrev coding : GenesisCoding number_keys types
coding = record {
  to_json = λ g. written g.aura_authorities g.grandpa_authorities;
  aura_id = λ key. key;
  grandpa_id = λ key. key;
}

map-id : (ks : List ℕ) → map (λ key. key) ks ≡ ks
map-id [] = refl
map-id (k ∷ ks) = ap (λ rest. k ∷ rest) (map-id ks)

map-pairs : (ps : List (ℕ × ℕ)) → map (λ (key, weight). (key, weight)) ps ≡ ps
map-pairs [] = refl
map-pairs (p ∷ ps) = ap (λ rest. p ∷ rest) (map-pairs ps)

builder-IsLawful : IsLawfulBuilder number_keys types frame coding
builder-IsLawful = record {
  aura = λ g s accepted. read_aura-written _ _ ∙ sym (map-id _);
  grandpa = λ g s accepted.
      read_grandpa-written g.aura_authorities g.grandpa_authorities ∙ sym (map-pairs _);
}

runtime_api-local_testnet_example :
    (c : ChainSpec number_keys) × (auths : List (ℕ × ℕ)) × (local_testnet_config number_keys
        (some wasm)
      ≡ ok c)
    × (for_each (authority_keys_from_seed number_keys) local_authorities ≡ ok auths)
    × (let begun =
          (runtime_api types frame
            (genesis (build_config (coding.to_json c.genesis_config_patch)))
            ([], [])).1 in
        ((runtime_api types frame authorities begun).0 ≡ map (λ (aura, _). aura) auths)
        × ((runtime_api types frame grandpa_authorities begun).0
            ≡ map (λ (_, grandpa). (grandpa, 1)) auths))
runtime_api-local_testnet_example =
    runtime_api-local_testnet number_keys types frame coding builder-IsLawful
      (number_keys-IsSound _) wasm
      (record {
        aura = number-Derives local_authorities;
        grandpa = number-Derives local_authorities;
        account = plain-Derives local_accounts;
      })
      ([], [])

abbrev slots : Slots
slots = record {
  Client = ℕ;
  Hash = ℕ;
  ClientError = String;
  slot_duration_at = λ duration parent. ok duration;
  from_timestamp_and_slot_duration = λ t d. t / d;
}

slots-IsLawful : IsLawfulSlots slots
slots-IsLawful = record { slot_of = λ t d pos. refl }

import_inherents-author_inherents_example :
    (import_inherents slots 6000 77 100001
      ≡ author_inherents slots (runtime_api types frame Api.slot_duration ([], [])).0 100001)
    × (import_inherents slots 6000 77 100001 ≡ ok (16, 100001))
unfolding minimum_period slot_duration runtime_api
import_inherents-author_inherents_example =
    import_inherents-author_inherents slots slots-IsLawful types frame (λ s. refl) 6000 77 ([], [])
      (1 ∷ [], []) 100001 refl

abbrev taken : AuraConfig → ℕ → ℕ × ℕ → ℕ × ℕ → Bool
taken c period parent block =
    (if c.allow_multiple_blocks_per_slot then leb parent.0 block.0 else ltb parent.0 block.0)
    && (leb (parent.1 + period) block.1 && (block.0 == block.1 / (period * 2)))

abbrev clock : Clock
clock = record { accepts = taken }

clock-IsLawful : IsLawfulClock clock
clock-IsLawful = record {
  accepts_lem = λ c period parent block. (λ h. ground arith, λ h. ground arith);
}

author_blocks_taken_example :
    (parent : ℕ × ℕ) × (blocks : List (ℕ × ℕ)) × (for_each
        (author_inherents slots (runtime_api types frame Api.slot_duration ([], [])).0)
        (12001 ∷ 18001 ∷ 25000 ∷ [])
      ≡ ok (parent ∷ blocks))
    × (map (λ (_, timestamp). timestamp) blocks ≡ 18001 ∷ 25000 ∷ [])
    × (accepts_all clock parent blocks ≡ true)
unfolding minimum_period slot_duration
author_blocks_taken_example =
    author_blocks_taken slots slots-IsLawful types frame clock clock-IsLawful (λ s. refl) ([], [])
      12001 (18001 ∷ 25000 ∷ []) (omega arith, (omega arith, tt))
