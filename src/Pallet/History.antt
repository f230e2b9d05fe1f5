-- ===== src/Pallet/History.antt =====
-- What holds after any sequence of extrinsics to the pallet of pallets/template/src/lib.rs.
use mathlib.Core.List.{append-nil, append_assoc, append-eq-nil_iff}
use substrate_fabric_integra.Base.{
  ◌≡◌, refl, ◌∙◌, ap, ◌≢◌, ◌↔◌, Option, none, some, List, [], ◌∷◌, ◌++◌, map, All, arith,
}
use substrate_fabric_integra.Pallet.Frame.{Frame, IsLawful, Event, something_stored}
use substrate_fabric_integra.Pallet.Call.{Call, do_something, cause_error, dispatch, dispatch_all}
use substrate_fabric_integra.Pallet.Spec.{run}
use substrate_fabric_integra.Pallet.Laws.{Fits, view, signer, InRange, view-dispatch}

module _ (F : Frame) where
  abbrev pub Extrinsics : Type 0
  Extrinsics = List (Call × F.Origin)

  abbrev pub signed_calls : Extrinsics → List (Call × Option F.AccountId)
  signed_calls = map (λ (call, origin). (call, signer F origin))

  -- The event of an extrinsic that stores a value, if it is signed.
  abbrev stored_by : Call → Option F.AccountId → List (Event F.AccountId)
  stored_by (do_something n) (some who) = something_stored n who ∷ []
  stored_by _ _ = []

  -- The events of the signed `do_something` calls, in order.
  abbrev pub stored : Extrinsics → List (Event F.AccountId)
  stored [] = []
  stored ((call, origin) ∷ xs) = stored_by call (signer F origin) ++ stored xs

module _ (F : Frame) (L : IsLawful F) where
  pub dispatch-InRange :
      (call : Call) (origin : F.Origin) (s : F.State)
      → Fits call
      → InRange F s
      → InRange F (dispatch F call origin s).1
  unfolding dispatch
  dispatch-InRange (do_something v) origin s fits h n e =
      grind (arith, L.get-put, L.get-deposit_event, h)
  dispatch-InRange cause_error origin s fits h n e = grind (arith, L.get-put, h)

  pub dispatch-block_number :
      (call : Call) (origin : F.Origin) (s : F.State)
      → F.block_number (dispatch F call origin s).1 ≡ F.block_number s
  unfolding dispatch
  dispatch-block_number (do_something v) origin s =
      grind (arith, L.block_number-put, L.block_number-deposit_event)
  dispatch-block_number cause_error origin s = grind (arith, L.block_number-put)

  -- Over a lawful FRAME, extrinsics with u32 arguments never take the stored value out of the range
  -- of u32.
  pub dispatch_all-InRange :
      (xs : Extrinsics F) (s : F.State)
      → All (λ (call, _). Fits call) xs
      → InRange F s
      → InRange F (dispatch_all F xs s)
  unfolding dispatch_all
  dispatch_all-InRange [] s fits h = h
  dispatch_all-InRange ((call, origin) ∷ xs) s fits h =
      dispatch_all-InRange xs (dispatch F call origin s).1 fits.1
        (dispatch-InRange call origin s fits.0 h)

  -- Over a lawful FRAME, after the genesis block and from a stored value within u32, any sequence
  -- of extrinsics with u32 arguments leaves the stored value and the events that the specification
  -- leaves, run on the same calls and signers.
  pub view-dispatch_all :
      (xs : Extrinsics F) (s : F.State)
      → F.block_number s ≢ 0
      → All (λ (call, _). Fits call) xs
      → InRange F s
      → view F (dispatch_all F xs s) ≡ run (signed_calls F xs) (view F s)
  unfolding dispatch_all run
  view-dispatch_all [] s late fits h = refl
  view-dispatch_all ((call, origin) ∷ xs) s late fits h =
      let t = (dispatch F call origin s).1 in
      view-dispatch_all xs t (rw (dispatch-block_number call origin s) late) fits.1
        (dispatch-InRange call origin s fits.0 h)
      ∙ ap (run (signed_calls F xs)) (view-dispatch F L call origin s late fits.0 h).1

  events-dispatch :
      (call : Call) (origin : F.Origin) (s : F.State)
      → F.block_number s ≢ 0
      → F.events (dispatch F call origin s).1 ≡ F.events s ++ stored_by F call (signer F origin)
  unfolding dispatch
  events-dispatch (do_something v) origin s late =
      grind (arith, append-nil, L.events-put, L.block_number-put, L.events-deposit_event)
  events-dispatch cause_error origin s late = grind (arith, append-nil, L.events-put)

  -- Over a lawful FRAME and after the genesis block, the events grow by one for each signed
  -- `do_something`, in order and with its value and signer, and by nothing else.
  pub events-dispatch_all :
      (xs : Extrinsics F) (s : F.State)
      → F.block_number s ≢ 0
      → F.events (dispatch_all F xs s) ≡ F.events s ++ stored F xs
  unfolding dispatch_all
  events-dispatch_all [] s late = rw append-nil
  events-dispatch_all ((call, origin) ∷ xs) s late =
      events-dispatch_all xs (dispatch F call origin s).1
        (rw (dispatch-block_number call origin s) late)
      ∙ rw (events-dispatch call origin s late) (append_assoc (F.events s) _ _)

  get-dispatch-none :
      (call : Call) (origin : F.Origin) (s : F.State)
      → Fits call
      → (F.get (dispatch F call origin s).1 ≡ none)
        ↔ ((F.get s ≡ none) × (stored_by F call (signer F origin) ≡ []))
  unfolding dispatch
  get-dispatch-none (do_something v) origin s fits = (
    λ h. grind (arith, L.get-put, L.get-deposit_event),
    λ h. grind (arith, L.get-put, L.get-deposit_event),
  )
  get-dispatch-none cause_error origin s fits =
      (λ h. grind (arith, L.get-put), λ h. grind (arith, L.get-put))

  -- Over a lawful FRAME, the storage holds no value after extrinsics with u32 arguments exactly
  -- when it held none before and no signed `do_something` was among them.
  pub get-dispatch_all-none :
      (xs : Extrinsics F) (s : F.State)
      → All (λ (call, _). Fits call) xs
      → (F.get (dispatch_all F xs s) ≡ none) ↔ ((F.get s ≡ none) × (stored F xs ≡ []))
  unfolding dispatch_all
  get-dispatch_all-none [] s fits = (λ h. (h, refl), λ h. h.0)
  get-dispatch_all-none ((call, origin) ∷ xs) s fits =
      let rest = get-dispatch_all-none xs (dispatch F call origin s).1 fits.1 in
      let first = get-dispatch-none call origin s fits.0 in
      (
        λ h.
            let (before, stored_nil) = rest.0 h in
            let (at_first, first_nil) = first.0 before in
            (at_first, append-eq-nil_iff.1 (first_nil, stored_nil)),
        λ h.
            let (first_nil, stored_nil) = append-eq-nil_iff.0 h.1 in
            rest.1 (first.1 (h.0, first_nil), stored_nil),
      )
