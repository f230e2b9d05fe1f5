-- ===== src/Rpc.antt =====
-- node/src/rpc.rs: the node's RPC module, merged from the two that Substrate provides.
use substrate_fabric_integra.Base.{
  ◌≡◌, ◌↔◌, ◌∙◌, refl, ap, sym, String, Bool, true, false, ◌||◌, arith,
}
use substrate_fabric_integra.Base.Effect.{Result, ok}
use substrate_fabric_integra.Base.Outcome.{◌>>=◌}

-- `jsonrpsee::RpcModule`, and the two interfaces over a client and a transaction pool.
pub record RpcHost : Type 1 where
  pub Client : Type 0
  pub Pool : Type 0
  pub DenyUnsafe : Type 0
  pub Error : Type 0
  pub Module : Type 0
  pub empty : Module
  pub has_method : Module → String → Bool
  pub merge : Module → Module → Result Error Module
  -- `System::new(client, pool, deny_unsafe).into_rpc()`
  pub system_rpc : Client → Pool → DenyUnsafe → Module
  -- `TransactionPayment::new(client).into_rpc()`
  pub payment_rpc : Client → Module

module _ (R : RpcHost) where
  pub record FullDeps : Type 0 where
    pub client : R.Client
    pub pool : R.Pool
    pub deny_unsafe : R.DenyUnsafe

  unfoldable pub create_full : FullDeps → Result R.Error R.Module
  create_full deps = do
    with_system ← R.merge R.empty (R.system_rpc deps.client deps.pool deps.deny_unsafe)
    R.merge with_system (R.payment_rpc deps.client)

  -- Two modules share no method.
  abbrev pub Apart : R.Module → R.Module → Type 0
  Apart a b = (name : String) → R.has_method a name ≡ true → R.has_method b name ≡ false

  -- A new module has no method. Two modules merge exactly when they share no method, and the result has
  -- the methods of both.
  pub record IsLawful : Type 0 where
    pub has_method-empty : (name : String) → R.has_method R.empty name ≡ false
    pub has_method-merge :
        (a b c : R.Module) (name : String)
        → R.merge a b ≡ ok c
        → R.has_method c name ≡ (R.has_method a name || R.has_method b name)
    pub merge-disjoint : (a b : R.Module) → ((c : R.Module) × (R.merge a b ≡ ok c)) ↔ Apart a b

  -- The system's methods merge first, into a module that has just these.
  first_merge :
      IsLawful
      → (system : R.Module)
      → (first : R.Module) × (R.merge R.empty system ≡ ok first)
        × ((name : String) → R.has_method first name ≡ R.has_method system name)
  first_merge L system =
      let (first, made) =
        (L.merge-disjoint R.empty system).1
          (λ name has. absurd (ground (arith, L.has_method-empty name))) in
      (
        first,
        made,
        λ name.
            rw (L.has_method-merge R.empty system first name made, L.has_method-empty name) refl,
      )

  -- With lawful modules, the RPC module is made exactly when no method of the system is one of the
  -- payment's.
  pub create_full-eq-ok :
      IsLawful
      → (deps : FullDeps)
      → ((m : R.Module) × (create_full deps ≡ ok m))
        ↔ Apart (R.system_rpc deps.client deps.pool deps.deny_unsafe) (R.payment_rpc deps.client)
  unfolding create_full
  create_full-eq-ok L deps =
      let payment = R.payment_rpc deps.client in
      let (first, made, same) =
        first_merge L (R.system_rpc deps.client deps.pool deps.deny_unsafe) in
      (
        λ h name has.
            (L.merge-disjoint first payment).0 (h.0, rw made at h.1) name (same name ∙ has),
        λ apart.
            let (m, e) =
              (L.merge-disjoint first payment).1 (λ name has. apart name (sym (same name) ∙ has)) in
            (m, rw made e),
      )

  -- With lawful modules, an RPC module that is made has the methods of the system and the payment's,
  -- and no others.
  pub has_method-create_full :
      IsLawful
      → (deps : FullDeps) (m : R.Module) (name : String) → create_full deps ≡ ok m
      → R.has_method m name ≡ (
          R.has_method (R.system_rpc deps.client deps.pool deps.deny_unsafe) name
          || R.has_method (R.payment_rpc deps.client) name)
  unfolding create_full
  has_method-create_full L deps m name h =
      let payment = R.payment_rpc deps.client in
      let (first, made, same) =
        first_merge L (R.system_rpc deps.client deps.pool deps.deny_unsafe) in
      L.has_method-merge first payment m name (rw made at h)
      ∙ ap (λ b. b || R.has_method payment name) (same name)
