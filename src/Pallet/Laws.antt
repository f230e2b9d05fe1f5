-- ===== src/Pallet/Laws.antt =====
-- How a single call of the pallet ends, and that it does what the specification says.
use substrate_fabric_integra.Base.{ℕ, ◌<◌, ◌≤◌, ⊤, ◌≡◌, ◌≢◌, ◌↔◌, Option, none, some, arith}
use substrate_fabric_integra.Base.Word.{u32_max}
use substrate_fabric_integra.Base.Effect.{Result, ok, err}
use substrate_fabric_integra.Pallet.Frame.{Frame, IsLawful}
use substrate_fabric_integra.Pallet.Dispatchables
use substrate_fabric_integra.Pallet.Call.{Call, do_something, cause_error, dispatch}
use substrate_fabric_integra.Pallet.Spec.{View, Verdict, accepted, unsigned, refused, step}

-- The argument of a call is a u32.
abbrev pub Fits : Call → Type 0
Fits (do_something n) = n ≤ u32_max
Fits cause_error = Unit

module _ (F : Frame) where
  -- A call that returns an error leaves the state as it found it.
  pub dispatch_failed :
      (call : Call) (origin : F.Origin) (s : F.State) {e : F.DispatchError}
      → (dispatch F call origin s).0 ≡ err e
      → (dispatch F call origin s).1 ≡ s
  unfolding dispatch
  dispatch_failed (do_something v) origin s h = ground arith
  dispatch_failed cause_error origin s h = ground arith

  -- `cause_error` succeeds exactly when the origin is signed and the stored value is below the
  -- largest u32.
  pub cause_error-eq-ok :
      (origin : F.Origin) (s : F.State)
      → ((Dispatchables.cause_error F origin s).0 ≡ ok tt) ↔ (
          (who : F.AccountId) × (n : ℕ) × (F.ensure_signed origin ≡ ok who)
          × (F.get s ≡ some n)
          × (n < u32_max))
  unfolding Dispatchables.cause_error
  cause_error-eq-ok origin s = (λ h. ground arith, λ h. ground arith)

  abbrev pub view : F.State → View F.AccountId
  view s = record { value = F.get s; log = F.events s }

  abbrev pub signer : F.Origin → Option F.AccountId
  signer origin = elim (F.ensure_signed origin) [ ok who ↦ some who | err _ ↦ none ]

  -- What the code returns for a verdict; without a signature it is the origin check's own error.
  abbrev pub reported : F.Origin → Verdict → Result F.DispatchError ⊤
  reported origin accepted = ok tt
  reported origin unsigned = elim (F.ensure_signed origin) [ ok _ ↦ ok tt | err e ↦ err e ]
  reported origin (refused e) = err (F.module_error e)

  abbrev pub InRange : F.State → Type 0
  InRange s = (n : ℕ) → F.get s ≡ some n → n ≤ u32_max

module _ (F : Frame) (L : IsLawful F) where
  -- Over a lawful FRAME and after the genesis block, a call with u32 arguments on a stored value
  -- within u32 returns what the specification's verdict reports, and changes the stored value and
  -- the events as the specification does.
  pub view-dispatch :
      (call : Call) (origin : F.Origin) (s : F.State)
      → F.block_number s ≢ 0
      → Fits call
      → InRange F s
      → let (verdict, v) = step call (signer F origin) (view F s) in
        ((dispatch F call origin s).0 ≡ reported F origin verdict)
        × (view F (dispatch F call origin s).1 ≡ v)
  unfolding dispatch step
  view-dispatch (do_something v) origin s late fits h = grind (
    arith, L.get-put, L.events-put, L.block_number-put, L.get-deposit_event, L.events-deposit_event,
  )
  view-dispatch cause_error origin s late fits h = grind (arith, L.get-put, L.events-put, h)
