-- ===== src/ChainSpec/Laws.antt =====
-- The two configurations of node/src/chain_spec.rs: when they are made, and that the pallets accept
-- their genesis states.
use mathlib.Core.List.{Memᴰ}
use substrate_fabric_integra.Base.{
  All-Memᴰ, ℕ, ◌≤◌, ◌≡◌, refl, String, ◌<>◌, Option-cases, inl, inr, some, List, [], ◌∷◌, ◌*◌, true,
  length, All, Distinct, arith,
}
use substrate_fabric_integra.Base.Texts.{distinct-Distinct}
use substrate_fabric_integra.Base.Effect.{ok}
use substrate_fabric_integra.Base.Outcome.{
  for_each-total, Yields-Distinct, Yields-length, Yields-Memᴰ,
}
use substrate_fabric_integra.ChainSpec.Keys.{
  Scheme, Keys, get_account_id_from_seed, authority_keys_from_seed,
}
use substrate_fabric_integra.ChainSpec.Genesis.{Genesis, testnet_genesis}
use substrate_fabric_integra.ChainSpec.Config.{
  ChainSpec, development_spec, local_testnet_spec, development_config, local_testnet_config,
  genesis_from_seeds, development_authorities, development_accounts, local_authorities,
  local_accounts,
}
use substrate_fabric_integra.ChainSpec.Accepted.{IsAccepted, issuance, testnet_genesis-IsAccepted}

-- The seed is a valid one for the scheme.
abbrev pub Derives : Scheme → String → Type 0
Derives S seed = (pair : S.Pair) × (S.from_string ("//" <> seed) ≡ some pair)

-- Different seeds of a list derive different accounts.
pub record IsSound (K : Keys) (seeds : List String) : Type 0 where
  pub account_injective :
      (s t : String) {p q : K.sr25519.Pair}
      → Memᴰ s seeds
      → Memᴰ t seeds
      → K.sr25519.from_string ("//" <> s) ≡ some p
      → K.sr25519.from_string ("//" <> t) ≡ some q
      → K.into_account (K.sr25519.public p) ≡ K.into_account (K.sr25519.public q)
      → s ≡ t

-- Every seed of a configuration derives the keys that it is used for.
pub record AllDerive (K : Keys) (authorities accounts : List String) : Type 0 where
  pub aura : All (Derives K.aura) authorities
  pub grandpa : All (Derives K.grandpa) authorities
  pub account : All (Derives K.sr25519) accounts

module _ (K : Keys) where
  account_of :
      (seed : String)
      → Derives K.sr25519 seed
      → (a : K.AccountId) × (get_account_id_from_seed K seed ≡ ok a)
  unfolding get_account_id_from_seed
  account_of seed (p, e) = (K.into_account (K.sr25519.public p), rw e)

  accounts_of_seeds :
      (seeds : List String)
      → All (Derives K.sr25519) seeds
      → All (λ s. (a : K.AccountId) × (get_account_id_from_seed K s ≡ ok a)) seeds
  accounts_of_seeds [] _ = tt
  accounts_of_seeds (s ∷ seeds) (d, ds) = (account_of s d, accounts_of_seeds seeds ds)

  authorities_of_seeds :
      (seeds : List String)
      → All (Derives K.aura) seeds
      → All (Derives K.grandpa) seeds
      → All
          (λ s. (a : K.aura.Public × K.grandpa.Public) × (authority_keys_from_seed K s ≡ ok a))
          seeds
  unfolding authority_keys_from_seed
  authorities_of_seeds [] _ _ = tt
  authorities_of_seeds (s ∷ seeds) ((p, e), ds) ((q, e'), ds') =
      (((K.aura.public p, K.grandpa.public q), rw (e, e')), authorities_of_seeds seeds ds ds')

  pub get_account_id_from_seed-injective :
      {seeds : List String}
      → IsSound K seeds
      → (s t : String) (a : K.AccountId) → Memᴰ s seeds
      → Memᴰ t seeds
      → get_account_id_from_seed K s ≡ ok a
      → get_account_id_from_seed K t ≡ ok a
      → s ≡ t
  unfolding get_account_id_from_seed
  get_account_id_from_seed-injective sound s t a m m' e e' =
      elim (Option-cases (K.sr25519.from_string ("//" <> s))) [
        | inl none_s ↦ absurd (ground arith)
        | inr (p, ep) ↦ elim (Option-cases (K.sr25519.from_string ("//" <> t))) [
          | inl none_t ↦ absurd (ground arith)
          | inr (q, eq) ↦ sound.account_injective s t m m' ep eq (ground arith)
        ]
      ]

  -- If every seed derives its keys and the seeds of the accounts are different and hold the root's,
  -- the genesis state is made and accepted.
  pub genesis_from_seeds-IsAccepted :
      (authorities : List String) (root : String) (accounts : List String)
      → IsSound K accounts
      → AllDerive K authorities accounts
      → Distinct accounts
      → Memᴰ root accounts
      → length authorities ≤ 32
      → length accounts ≤ 18446744073709551616
      → (g : Genesis K) × (genesis_from_seeds K authorities root accounts ≡ ok g)
        × IsAccepted K g
        × (issuance g.balances ≡ length accounts * 1152921504606846976)
  unfolding genesis_from_seeds
  genesis_from_seeds-IsAccepted authorities root accounts sound d apart member few fit =
      let (auths, eauths, yauths) =
        for_each-total (authority_keys_from_seed K) authorities
          (authorities_of_seeds authorities d.aura d.grandpa) in
      let (ks, eks, yks) =
        for_each-total (get_account_id_from_seed K) accounts
          (accounts_of_seeds accounts d.account) in
      let (k, ek) = account_of root (All-Memᴰ (Derives K.sr25519) d.account member) in
      let m = Yields-Memᴰ (get_account_id_from_seed K) accounts ks yks member ek in
      let unlike =
        Yields-Distinct (get_account_id_from_seed K) accounts ks
          (get_account_id_from_seed-injective sound) yks apart in
      let n_auths = Yields-length (authority_keys_from_seed K) authorities auths yauths in
      let n_ks = Yields-length (get_account_id_from_seed K) accounts ks yks in
      let (accepted, total) =
        testnet_genesis-IsAccepted K auths k ks true (omega arith) (omega arith) unlike m in
      (
        testnet_genesis K auths k ks true,
        rw (eauths, ek, eks),
        accepted,
        omega (arith, total, n_ks),
      )

  -- If the runtime's code was built, every seed of the development chain derives its keys, and
  -- the seeds of its accounts derive different accounts, then the configuration is made from that code, and
  -- its genesis state is accepted: four accounts of 2^60.
  pub development_config-IsAccepted :
      IsSound K development_accounts
      → (code : List ℕ) → AllDerive K development_authorities development_accounts
      → (c : ChainSpec K) × (development_config K (some code) ≡ ok c)
        × (c.code ≡ code)
        × IsAccepted K c.genesis_config_patch
        × (issuance c.genesis_config_patch.balances ≡ 4 * 1152921504606846976)
  unfolding development_config
  development_config-IsAccepted sound code d =
      let (g, e, accepted, total) =
        genesis_from_seeds-IsAccepted development_authorities "Alice" development_accounts sound d
          (distinct-Distinct development_accounts refl) (Memᴰ.head refl) (omega arith)
          (omega arith) in
      (development_spec K code g, rw e refl, refl, accepted, total)

  -- If the runtime's code was built, every seed of the local test network derives its keys, and
  -- the seeds of its accounts derive different accounts, then the configuration is made from that code, and
  -- its genesis state is accepted: twelve accounts of 2^60.
  pub local_testnet_config-IsAccepted :
      IsSound K local_accounts
      → (code : List ℕ) → AllDerive K local_authorities local_accounts
      → (c : ChainSpec K) × (local_testnet_config K (some code) ≡ ok c)
        × (c.code ≡ code)
        × IsAccepted K c.genesis_config_patch
        × (issuance c.genesis_config_patch.balances ≡ 12 * 1152921504606846976)
  unfolding local_testnet_config
  local_testnet_config-IsAccepted sound code d =
      let (g, e, accepted, total) =
        genesis_from_seeds-IsAccepted local_authorities "Alice" local_accounts sound d
          (distinct-Distinct local_accounts refl) (Memᴰ.head refl) (omega arith) (omega arith) in
      (local_testnet_spec K code g, rw e refl, refl, accepted, total)
