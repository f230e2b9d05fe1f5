-- ===== src/Runtime/Applied.antt =====
-- What the extrinsics of a block of runtime/src/lib.rs do to the template pallet.
use substrate_fabric_integra.Base.{◌≡◌, refl, sym, ap, ◌∙◌, inl, inr, List, [], ◌∷◌, ◌++◌, All}
use substrate_fabric_integra.Pallet.Frame.{Frame, IsLawful}
use substrate_fabric_integra.Pallet.Call.{Call}
use substrate_fabric_integra.Pallet.Spec.{run, step}
use substrate_fabric_integra.Pallet.Laws.{view, signer, view-dispatch}
use substrate_fabric_integra.Pallet.History.{Extrinsics, signed_calls}
use substrate_fabric_integra.Runtime.Pallets.{template_module}
use substrate_fabric_integra.Runtime.Calls.{Others}
use substrate_fabric_integra.Runtime.Routing.{Handlers, IsIsolated, dispatch_runtime_call}
use substrate_fabric_integra.Runtime.Reaches.{run-append}
use substrate_fabric_integra.Runtime.Sudo.{comes_to, IsSudo, dispatch_runtime_call-Reaches}
use substrate_fabric_integra.Runtime.ApiFrame.{RuntimeTypes, RuntimeFrame}
use substrate_fabric_integra.Runtime.Api.{runtime_api, apply_extrinsic}
use substrate_fabric_integra.Runtime.Executive.{Same-late, Outcome, Dispatches, IsLawfulExecutive}
use substrate_fabric_integra.Runtime.Explained.{Explained-Same}
use substrate_fabric_integra.Runtime.Blocks.{
  Chain, inside, outcome_calls, applies, all_apply, Grown, Grown-Outcome, Chain-Holds,
}

module _ (T : RuntimeTypes) (X : RuntimeFrame T) where
  -- The state inside a block after some extrinsics more.
  abbrev pub api_apply_all : List T.Extrinsic → T.State → T.State
  unfolding runtime_api
  api_apply_all [] s = s
  api_apply_all (x ∷ xs) s = api_apply_all xs (runtime_api T X (apply_extrinsic x) s).1

module _ (F : Frame) (L : IsLawful F) (O : Others) (H : Handlers F O) (isolated : IsIsolated F O H)
    (S : IsSudo F O H) (T : RuntimeTypes) (X : RuntimeFrame T) (seen : T.State → F.State)
    (E : IsLawfulExecutive F O H T X seen) where
  view-Outcome :
      (calls : Extrinsics F) (x : T.Extrinsic) (s : T.State) (r : Outcome F O H T X seen x s)
      → Grown F L O H isolated S T X seen E calls s
      → view F (seen (X.apply_extrinsic x s).1)
        ≡ run (signed_calls F (outcome_calls F L O H isolated S T X seen E x s r)) (view F (seen s))
  unfolding run
  view-Outcome calls x s (inl same) grown = same.viewed
  view-Outcome calls x s (inr (p, c, origin, d)) (e, late) =
      let f = Explained-Same F e d.before in
      let r =
        dispatch_runtime_call-Reaches F L O H isolated S p c origin d.checked d.valid
          (Same-late F d.before late) f.range in
      d.after.viewed
      ∙ r.viewed
      ∙ ap (run (signed_calls F (comes_to F O H S p c origin d.checked d.valid))) d.before.viewed

  view-applied :
      (calls : Extrinsics F) (xs : List T.Extrinsic) (plain : All E.IsOrdinary xs) (s : T.State)
      → Grown F L O H isolated S T X seen E calls s
      → view F (seen (api_apply_all T X xs s))
        ≡ run
            (signed_calls F (all_apply F L O H isolated S T X seen E xs plain s))
            (view F (seen s))
  unfolding run runtime_api
  view-applied calls [] _ s grown = refl
  view-applied calls (x ∷ xs) (plain, others) s grown =
      let first = applies F L O H isolated S T X seen E x plain s in
      let next = (X.apply_extrinsic x s).1 in
      let r = E.applied x s plain in
      let rest = all_apply F L O H isolated S T X seen E xs others next in
      view-applied (calls ++ first) xs others next
        (Grown-Outcome F L O H isolated S T X seen E calls x s r grown)
      ∙ ap (run (signed_calls F rest)) (view-Outcome calls x s r grown)
      ∙ sym (run-append F first rest (view F (seen s)))

  -- Over a lawful FRAME and Executive whose other pallets' ordinary calls leave the template pallet alone, but for
  -- the calls that sudo dispatches, wherever a chain of the runtime's APIs applies a list of
  -- extrinsics, whose calls and those of the chain write no raw storage, not through sudo either, the stored value and the events are afterwards what the specification makes of
  -- those before by the calls of the template pallet that the extrinsics come to, their own and the
  -- innermost of sudo's, in order.
  pub view-api_apply_all :
      {calls : Extrinsics F} {s : T.State}
      → Chain F L O H isolated S T X seen E inside calls s
      → (xs : List T.Extrinsic) (plain : All E.IsOrdinary xs)
      → view F (seen (api_apply_all T X xs s))
        ≡ run
            (signed_calls F (all_apply F L O H isolated S T X seen E xs plain s))
            (view F (seen s))
  view-api_apply_all {calls} {s} chain xs plain =
      view-applied calls xs plain s (Chain-Holds F L O H isolated S T X seen E chain)

  -- Over a lawful FRAME and Executive whose other pallets' ordinary calls leave the template pallet alone, but for
  -- the calls that sudo dispatches, wherever a chain of the runtime's APIs applies an extrinsic
  -- that dispatches a call of the template pallet with u32 arguments, the stored value and the
  -- events are afterwards what the specification makes of those before by that call and signer.
  pub Chain-apply :
      {calls : Extrinsics F} {s : T.State}
      → Chain F L O H isolated S T X seen E inside calls s
      → (x : T.Extrinsic) (call : Call) (origin : F.Origin)
      → Dispatches F O H T X seen x s template_module call origin
      → view F (seen (runtime_api T X (apply_extrinsic x) s).1)
        ≡ (step call (signer F origin) (view F (seen s))).1
  unfolding runtime_api dispatch_runtime_call
  Chain-apply {s} chain x call origin d =
      let (e, late) = Chain-Holds F L O H isolated S T X seen E chain in
      let f = Explained-Same F e d.before in
      let (_, viewed) =
        view-dispatch F L call origin d.checked (Same-late F d.before late) d.valid.0 f.range in
      d.after.viewed ∙ viewed ∙ ap (λ v. (step call (signer F origin) v).1) d.before.viewed
