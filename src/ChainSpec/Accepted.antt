-- ===== src/ChainSpec/Accepted.antt =====
-- The conditions under which the pallets of runtime/src/lib.rs accept a genesis state, and the
-- states made by `testnet_genesis` of node/src/chain_spec.rs.
use mathlib.Core.List.{Memᴰ}
use substrate_fabric_integra.Base.{
  ℕ, ◌+◌, ◌*◌, ◌≤◌, ◌≡◌, refl, sym, ◌∙◌, Bool, some, List, [], ◌∷◌, map, length, length-map, All,
  Distinct, arith,
}
use substrate_fabric_integra.Base.Word.{u128_max}
use substrate_fabric_integra.Runtime.Params.{
  existential_deposit, aura_max_authorities, grandpa_max_authorities,
}
use substrate_fabric_integra.ChainSpec.Keys.{Keys}
use substrate_fabric_integra.ChainSpec.Genesis.{Genesis, endowment, testnet_genesis}

module _ {A : Type 0} where
  abbrev pub accounts_of : List (A × ℕ) → List A
  accounts_of = map (λ (k, _). k)

  -- the sum of the balances
  abbrev pub issuance : List (A × ℕ) → ℕ
  issuance [] = 0
  issuance ((_, b) ∷ rest) = b + issuance rest

module _ (K : Keys) where
  -- No account is endowed twice and none with less than the existential deposit, the issuance is a
  -- `u128`, the authorities of both consensus engines fit their bounds and are as many, and the sudo
  -- key is one of the endowed accounts.
  pub record IsAccepted (g : Genesis K) : Type 0 where
    pub distinct : Distinct (accounts_of g.balances)
    pub deposits : All (λ (_, b). existential_deposit ≤ b) g.balances
    pub issuance_fits : issuance g.balances ≤ u128_max
    pub aura_fits : length g.aura_authorities ≤ aura_max_authorities
    pub grandpa_fits : length g.grandpa_authorities ≤ grandpa_max_authorities
    pub paired : length g.aura_authorities ≡ length g.grandpa_authorities
    pub sudo_endowed : (k : K.AccountId) × (b : ℕ) × (g.sudo_key ≡ some k) × Memᴰ (k, b) g.balances

module _ {A : Type 0} where
  abbrev pub endowed : List A → List (A × ℕ)
  endowed = map (λ k. (k, endowment))

  accounts_of-endowed : (ks : List A) → accounts_of (endowed ks) ≡ ks
  accounts_of-endowed [] = refl
  accounts_of-endowed (k ∷ ks) = rw (accounts_of-endowed ks)

  issuance-endowed : (ks : List A) → issuance (endowed ks) ≡ length ks * endowment
  issuance-endowed [] = refl
  issuance-endowed (k ∷ ks) = omega (arith, issuance-endowed ks)

  deposits-endowed : (ks : List A) → All (λ (_, b). existential_deposit ≤ b) (endowed ks)
  deposits-endowed [] = tt
  deposits-endowed (k ∷ ks) = (omega arith, deposits-endowed ks)

  pub Memᴰ-endowed : {k : A} {ks : List A} → Memᴰ k ks → Memᴰ (k, endowment) (endowed ks)
  Memᴰ-endowed (Memᴰ.head e) = Memᴰ.head (rw e)
  Memᴰ-endowed (Memᴰ.tail m) = Memᴰ.tail (Memᴰ-endowed m)

module _ (K : Keys) where
  -- Up to 32 authorities and 2^64 different accounts, the root key among them, make a genesis state
  -- that the pallets accept, and whose issuance is 2^60 for each account.
  pub testnet_genesis-IsAccepted :
      (authorities : List (K.aura.Public × K.grandpa.Public)) (root : K.AccountId)
      (accounts : List K.AccountId) (println : Bool)
      → length authorities ≤ 32
      → length accounts ≤ 18446744073709551616
      → Distinct accounts
      → Memᴰ root accounts
      → let g = testnet_genesis K authorities root accounts println in
        IsAccepted K g × (issuance g.balances ≡ length accounts * 1152921504606846976)
  unfolding testnet_genesis
  testnet_genesis-IsAccepted authorities root accounts println few fit apart member = (
    record {
      distinct = rw accounts_of-endowed apart;
      deposits = deposits-endowed accounts;
      issuance_fits = rw issuance-endowed (omega arith);
      aura_fits = rw length-map few;
      grandpa_fits = rw length-map few;
      paired = length-map authorities _ ∙ sym (length-map authorities _);
      sudo_endowed = (root, endowment, refl, Memᴰ-endowed member);
    },
    issuance-endowed accounts,
  )
