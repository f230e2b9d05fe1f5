-- ===== src/Pallet/Counter.antt =====
-- Repeated `cause_error` of pallets/template/src/lib.rs: a counter that saturates.
use substrate_fabric_integra.Base.{
  ℕ, zero, suc, ◌+◌, ◌≤◌, min, ◌≡◌, refl, ◌∙◌, ap, some, [], ◌∷◌, ◌++◌, arith,
}
use substrate_fabric_integra.Base.Word.{u32_max}
use substrate_fabric_integra.Base.Effect.{ok}
use substrate_fabric_integra.Pallet.Frame.{Frame, IsLawful}
use substrate_fabric_integra.Pallet.Call.{do_something, cause_error, dispatch, dispatch_all}
use substrate_fabric_integra.Pallet.History.{Extrinsics}

module _ (F : Frame) where
  -- `k` times `cause_error` from one origin
  abbrev pub increments : ℕ → F.Origin → Extrinsics F
  increments zero origin = []
  increments (suc k) origin = (cause_error, origin) ∷ increments k origin

  dispatch_all-append :
      (xs ys : Extrinsics F) (s : F.State)
      → dispatch_all F (xs ++ ys) s ≡ dispatch_all F ys (dispatch_all F xs s)
  unfolding dispatch_all
  dispatch_all-append [] ys s = refl
  dispatch_all-append ((call, origin) ∷ xs) ys s =
      dispatch_all-append xs ys (dispatch F call origin s).1

module _ (F : Frame) (L : IsLawful F) where
  get-cause_error :
      {origin : F.Origin} {who : F.AccountId} {s : F.State} {n : ℕ}
      → F.ensure_signed origin ≡ ok who
      → F.get s ≡ some n
      → n ≤ u32_max
      → F.get (dispatch F cause_error origin s).1 ≡ some (min (suc n) u32_max)
  unfolding dispatch
  get-cause_error signed e fits = grind (arith, L.get-put)

  get-increments :
      (k : ℕ) (origin : F.Origin) (s : F.State) {who : F.AccountId} {n : ℕ}
      → F.ensure_signed origin ≡ ok who
      → F.get s ≡ some n
      → n ≤ u32_max
      → F.get (dispatch_all F (increments F k origin) s) ≡ some (min (n + k) u32_max)
  unfolding dispatch_all
  get-increments zero origin s {n} signed e fits = e ∙ ap some (omega arith)
  get-increments (suc k) origin s {n} signed e fits =
      get-increments k origin (dispatch F cause_error origin s).1 signed
        (get-cause_error signed e fits) (omega arith)
      ∙ ap some (omega arith)

  get-do_something :
      {origin : F.Origin} {who : F.AccountId} (v : ℕ) (s : F.State)
      → F.ensure_signed origin ≡ ok who
      → v ≤ u32_max
      → F.get (dispatch F (do_something v) origin s).1 ≡ some v
  unfolding dispatch
  get-do_something v s signed fits = grind (arith, L.get-put, L.get-deposit_event)

  -- Over a lawful FRAME and whatever ran before, a signed `do_something` of the u32 `v` and then
  -- `k` signed calls of `cause_error` leave the smaller of `v + k` and the largest u32.
  pub get-dispatch_all-increments :
      (xs : Extrinsics F) (v k : ℕ) (setter origin : F.Origin) (s : F.State) {a b : F.AccountId}
      → F.ensure_signed setter ≡ ok a
      → F.ensure_signed origin ≡ ok b
      → v ≤ u32_max
      → F.get (dispatch_all F (xs ++ ((do_something v, setter) ∷ increments F k origin)) s)
        ≡ some (min (v + k) u32_max)
  unfolding dispatch_all
  get-dispatch_all-increments xs v k setter origin s set_signed signed fits =
      rw dispatch_all-append (
        get-increments k origin _ signed (get-do_something v (dispatch_all F xs s) set_signed fits)
          fits)
