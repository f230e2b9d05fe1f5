-- ===== src/Service/RpcBuilder.antt =====
-- `rpc_extensions_builder` of node/src/service.rs: the closure that makes the RPC module of
-- node/src/rpc.rs for each use of the RPC servers.
use substrate_fabric_integra.Base.{◌≡◌, ◌∙◌, ap, String, inl, inr, ◌||◌, arith}
use substrate_fabric_integra.Base.Effect.{Result, ok, err, Result-cases}
use substrate_fabric_integra.Rpc.{
  RpcHost, FullDeps, create_full, IsLawful, create_full-eq-ok, has_method-create_full,
}

-- `Subscription` is the argument that the closure ignores; errors are converted by `into`.
module _ (R : RpcHost) {Subscription E : Type 0} (into : R.Error → E) where
  unfoldable pub rpc_extensions_builder :
      R.Client → R.Pool → R.DenyUnsafe → Subscription → Result E R.Module
  rpc_extensions_builder client pool deny_unsafe _ =
      let deps : FullDeps R = record { client = client; pool = pool; deny_unsafe = deny_unsafe } in
      elim (create_full R deps) [ ok m ↦ ok m | err e ↦ err (into e) ]

  rpc_extensions_builder-ok :
      (client : R.Client) (pool : R.Pool) (deny : R.DenyUnsafe) (u : Subscription) {m : R.Module}
      → rpc_extensions_builder client pool deny u ≡ ok m
      → create_full R (record { client = client; pool = pool; deny_unsafe = deny }) ≡ ok m
  unfolding rpc_extensions_builder
  rpc_extensions_builder-ok client pool deny u built =
      elim (Result-cases
        (create_full R (record { client = client; pool = pool; deny_unsafe = deny }))) [
          | inl (n, made) ↦ ground arith
          | inr (e, failed) ↦ absurd (ground arith)
        ]

  -- With lawful modules whose system methods do not depend on the policy for unsafe calls, if the
  -- module is built for one use then it is built for every other use, whatever the policy, and what
  -- is built has each method of the system's interface and of the payment's, and no others.
  pub rpc_extensions_builder_lem :
      IsLawful R
      → (client : R.Client) (pool : R.Pool)
      → ((deny deny' : R.DenyUnsafe) (name : String)
          → R.has_method (R.system_rpc client pool deny) name
            ≡ R.has_method (R.system_rpc client pool deny') name)
      → (deny other : R.DenyUnsafe) (u v : Subscription) (m : R.Module)
      → rpc_extensions_builder client pool deny u ≡ ok m
      → (n : R.Module) × (rpc_extensions_builder client pool other v ≡ ok n)
        × ((name : String)
            → R.has_method n name ≡ (
                R.has_method (R.system_rpc client pool other) name
                || R.has_method (R.payment_rpc client) name))
  unfolding rpc_extensions_builder
  rpc_extensions_builder_lem L client pool same deny other u v m built =
      let one : FullDeps R = record { client = client; pool = pool; deny_unsafe = deny } in
      let two : FullDeps R = record { client = client; pool = pool; deny_unsafe = other } in
      let apart =
        (create_full-eq-ok R L one).0 (m, rpc_extensions_builder-ok client pool deny u built) in
      let (n, second) =
        (create_full-eq-ok R L two).1 (λ name has. apart name (same deny other name ∙ has)) in
      (
        n,
        ap (λ r. elim r [ ok x ↦ ok x | err e ↦ err (into e) ]) second,
        λ name. has_method-create_full R L two n name second,
      )
