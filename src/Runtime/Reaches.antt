-- ===== src/Runtime/Reaches.antt =====
-- When calls of the template pallet explain how a state of runtime/src/lib.rs came of another.
use substrate_fabric_integra.Base.{◌≡◌, refl, sym, ap, ◌∙◌, [], ◌∷◌, ◌++◌, All}
use substrate_fabric_integra.Pallet.Frame.{Frame}
use substrate_fabric_integra.Pallet.Spec.{View, run}
use substrate_fabric_integra.Pallet.Laws.{Fits, view, InRange}
use substrate_fabric_integra.Pallet.History.{Extrinsics, signed_calls}

module _ (F : Frame) where
  -- A state with a u32 that the specification reaches from another by calls with u32 arguments.
  pub record Reaches (calls : Extrinsics F) (s t : F.State) : Type 0 where
    pub fit : All (λ (call, _). Fits call) calls
    pub range : InRange F t
    pub block_number : F.block_number t ≡ F.block_number s
    pub viewed : view F t ≡ run (signed_calls F calls) (view F s)

  pub run-append :
      (xs ys : Extrinsics F) (v : View F.AccountId)
      → run (signed_calls F (xs ++ ys)) v ≡ run (signed_calls F ys) (run (signed_calls F xs) v)
  unfolding run
  run-append [] ys v = refl
  run-append (x ∷ xs) ys v = run-append xs ys _

  pub All-append :
      (xs ys : Extrinsics F)
      → All (λ (call, _). Fits call) xs
      → All (λ (call, _). Fits call) ys
      → All (λ (call, _). Fits call) (xs ++ ys)
  All-append [] ys _ h = h
  All-append (x ∷ xs) ys (f, fs) h = (f, All-append xs ys fs h)

  pub Reaches-trans :
      (xs ys : Extrinsics F) {s t u : F.State}
      → Reaches xs s t
      → Reaches ys t u
      → Reaches (xs ++ ys) s u
  Reaches-trans xs ys one two = record {
    fit = All-append xs ys one.fit two.fit;
    range = two.range;
    block_number = two.block_number ∙ one.block_number;
    viewed = two.viewed ∙ ap (run (signed_calls F ys)) one.viewed ∙ sym (run-append xs ys _);
  }
