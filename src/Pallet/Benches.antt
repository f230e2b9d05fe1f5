-- ===== src/Pallet/Benches.antt =====
-- pallets/template/src/benchmarking.rs: the benchmarks of the two dispatchables, as code that may fail
-- by the extrinsic's error or by an assertion.
use substrate_fabric_integra.Base.{
  ℕ, ⊤, ◌≡◌, Bool, true, false, ◌==◌, Option, none, some, if◌then◌else◌, arith,
}
use substrate_fabric_integra.Base.Effect.{ok, err, Action, modify, ◌>>◌}
use substrate_fabric_integra.Pallet.Frame.{Frame, IsLawful}
use substrate_fabric_integra.Pallet.Dispatchables.{do_something, cause_error}

pub data BenchFault (E : Type 0) : Type 0 where
  extrinsic : E → BenchFault E
  assertion : BenchFault E

-- `assert_eq!` on stored values
abbrev same : Option ℕ → Option ℕ → Bool
same none none = true
same (some a) (some b) = a == b
same _ _ = false

-- `whitelisted_caller` and `RawOrigin::Signed`
pub record Caller (F : Frame) : Type 0 where
  pub whitelisted_caller : F.AccountId
  pub signed : F.AccountId → F.Origin

module _ (F : Frame) (C : Caller F) where
  open F use {State, DispatchError, get, put}

  abbrev Bench : Type 0
  Bench = Action State (BenchFault DispatchError) ⊤

  -- `#[extrinsic_call]`
  abbrev extrinsic_call : Action State DispatchError ⊤ → Bench
  extrinsic_call call s =
      let (r, t) = call s in elim r [ ok u ↦ (ok u, t) | err e ↦ (err (extrinsic e), t) ]

  abbrev assert_stored : Option ℕ → Bench
  assert_stored value s = if same (get s) value then (ok tt, s) else (err assertion, s)

  unfoldable pub bench_do_something : Bench
  unfolding do_something
  bench_do_something = do
    extrinsic_call (do_something F (C.signed C.whitelisted_caller) 100)
    assert_stored (some 100)

  unfoldable pub bench_cause_error : Bench
  unfolding cause_error
  bench_cause_error = do
    modify (put 100)
    extrinsic_call (cause_error F (C.signed C.whitelisted_caller))
    assert_stored (some 101)

  -- A signed origin is signed by its account.
  pub record IsLawfulCaller : Type 0 where
    pub ensure_signed-signed : (who : F.AccountId) → F.ensure_signed (C.signed who) ≡ ok who

  -- Over a lawful FRAME, both benchmarks run through from every state: the extrinsic succeeds and the
  -- assertion holds.
  pub benchmarks_pass :
      IsLawful F
      → IsLawfulCaller
      → (s : State) → ((bench_do_something s).0 ≡ ok tt) × ((bench_cause_error s).0 ≡ ok tt)
  unfolding bench_do_something bench_cause_error
  benchmarks_pass L LC s = (
    grind (arith, LC.ensure_signed-signed, L.get-put, L.get-deposit_event),
    grind (arith, LC.ensure_signed-signed, L.get-put),
  )
