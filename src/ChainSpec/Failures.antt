-- ===== src/ChainSpec/Failures.antt =====
-- How the configurations of node/src/chain_spec.rs fail: by an error if the runtime's code was not
-- built, and by a panic if a seed derives no key.
use substrate_fabric_integra.Base.{
  ℕ, ◌≡◌, ◌↔◌, refl, subst, String, ◌<>◌, Option, none, some, List, [], ◌∷◌,
}
use substrate_fabric_integra.Base.Effect.{ok, err}
use substrate_fabric_integra.Base.Outcome.{for_each, returned, panicked, expect, or_return, ◌>>=◌}
use substrate_fabric_integra.ChainSpec.Keys.{
  Scheme, Keys, Outcome, get_from_seed, get_account_id_from_seed, authority_keys_from_seed,
}
use substrate_fabric_integra.ChainSpec.Config.{
  development_config, local_testnet_config, genesis_from_seeds, development_authorities,
  development_accounts, local_authorities, local_accounts,
}

-- The call may succeed or panic, with one message; it returns no error.
abbrev PanicsOnly : {A : Type 0} → Outcome A → Type 0
PanicsOnly (ok _) = Unit
PanicsOnly (err (returned _)) = ⊥
PanicsOnly (err (panicked m)) = m ≡ "static values are valid; qed"

PanicsOnly-bind :
    {A B : Type 0} (m : Outcome A) (f : A → Outcome B)
    → PanicsOnly m
    → ((a : A) → PanicsOnly (f a))
    → PanicsOnly (m >>= f)
PanicsOnly-bind (ok a) f h k = k a
PanicsOnly-bind (err (returned _)) f h k = h
PanicsOnly-bind (err (panicked _)) f h k = h

PanicsOnly-for_each :
    {A B : Type 0} (f : A → Outcome B) (xs : List A)
    → ((a : A) → PanicsOnly (f a))
    → PanicsOnly (for_each f xs)
PanicsOnly-for_each f [] h = tt
PanicsOnly-for_each f (x ∷ xs) h =
    PanicsOnly-bind (f x) _ (h x)
      λ y. PanicsOnly-bind (for_each f xs) _ (PanicsOnly-for_each f xs h) λ ys. tt

expect-PanicsOnly :
    {A : Type 0} (o : Option A) → PanicsOnly (expect o "static values are valid; qed")
expect-PanicsOnly none = refl
expect-PanicsOnly (some a) = tt

get_from_seed-PanicsOnly : (S : Scheme) (seed : String) → PanicsOnly (get_from_seed S seed)
unfolding get_from_seed
get_from_seed-PanicsOnly S seed =
    PanicsOnly-bind (expect (S.from_string ("//" <> seed)) "static values are valid; qed") _
      (expect-PanicsOnly (S.from_string ("//" <> seed))) (λ pair. tt)

-- No configuration made of a code that may be missing and of a computation that only panics returns
-- another error than that for the code.
module _ {A : Type 0} (made : List ℕ → Outcome A)
    (panics : (code : List ℕ) → PanicsOnly (made code)) where
  or_return_error :
      (wasm : Option (List ℕ)) (message m : String)
      → ((or_return wasm message >>= made) ≡ err (returned m)) ↔ ((wasm ≡ none) × (m ≡ message))
  or_return_error none message m = (λ h. (refl, cc), λ h. rw h.1)
  or_return_error (some code) message m = (λ h. absurd (subst PanicsOnly h (panics code)), λ h. cc)

module _ (K : Keys) where
  get_account_id_from_seed-PanicsOnly : (s : String) → PanicsOnly (get_account_id_from_seed K s)
  unfolding get_account_id_from_seed
  get_account_id_from_seed-PanicsOnly s =
      PanicsOnly-bind (get_from_seed K.sr25519 s) _ (get_from_seed-PanicsOnly K.sr25519 s) (λ _. tt)

  authority_keys_from_seed-PanicsOnly : (s : String) → PanicsOnly (authority_keys_from_seed K s)
  unfolding authority_keys_from_seed
  authority_keys_from_seed-PanicsOnly s =
      PanicsOnly-bind (get_from_seed K.aura s) _ (get_from_seed-PanicsOnly K.aura s) λ _.
        PanicsOnly-bind (get_from_seed K.grandpa s) _ (get_from_seed-PanicsOnly K.grandpa s)
          (λ _. tt)

  genesis_from_seeds-PanicsOnly :
      (authorities : List String) (root : String) (accounts : List String)
      → PanicsOnly (genesis_from_seeds K authorities root accounts)
  unfolding genesis_from_seeds
  genesis_from_seeds-PanicsOnly authorities root accounts =
      PanicsOnly-bind (for_each (authority_keys_from_seed K) authorities) _
        (PanicsOnly-for_each _ authorities (authority_keys_from_seed-PanicsOnly))
        λ auths.
          PanicsOnly-bind (get_account_id_from_seed K root) _
            (get_account_id_from_seed-PanicsOnly root)
            λ k.
              PanicsOnly-bind (for_each (get_account_id_from_seed K) accounts) _
                (PanicsOnly-for_each _ accounts get_account_id_from_seed-PanicsOnly) λ ks. tt

  -- Either configuration returns an error exactly when the runtime's code was not built, with the
  -- same message, whatever the seeds derive.
  pub config_error :
      (wasm : Option (List ℕ)) (m : String)
      → let unbuilt : Type 0 = (wasm ≡ none) × (m ≡ "Development wasm not available") in
        ((development_config K wasm ≡ err (returned m)) ↔ unbuilt)
        × ((local_testnet_config K wasm ≡ err (returned m)) ↔ unbuilt)
  unfolding development_config local_testnet_config
  config_error wasm m = (
    or_return_error _
        (λ code.
          PanicsOnly-bind
            (genesis_from_seeds K development_authorities "Alice" development_accounts) _
            (genesis_from_seeds-PanicsOnly development_authorities "Alice" development_accounts)
            λ g. tt)
        wasm _ m,
    or_return_error _
        (λ code.
          PanicsOnly-bind (genesis_from_seeds K local_authorities "Alice" local_accounts) _
            (genesis_from_seeds-PanicsOnly local_authorities "Alice" local_accounts) λ g. tt)
        wasm _ m,
  )
