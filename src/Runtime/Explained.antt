-- ===== src/Runtime/Explained.antt =====
-- The stored value of the template pallet in the runtime of runtime/src/lib.rs, explained by calls.
use substrate_fabric_integra.Base.{
  ◌≡◌, refl, sym, ap, ◌∙◌, Option, none, some, List, [], ◌∷◌, ◌++◌, All, arith,
}
use substrate_fabric_integra.Pallet.Frame.{Frame}
use substrate_fabric_integra.Pallet.Call.{Call, do_something, cause_error}
use substrate_fabric_integra.Pallet.Spec.{View, run, step}
use substrate_fabric_integra.Pallet.Laws.{Fits, view, InRange}
use substrate_fabric_integra.Pallet.History.{Extrinsics, signed_calls}
use substrate_fabric_integra.Runtime.Reaches.{Reaches, run-append, All-append}
use substrate_fabric_integra.Runtime.Executive.{Same}

step-value :
    {A : Type 0} (c : Call) (who : Option A) (v w : View A)
    → v.value ≡ w.value
    → (step c who v).1.value ≡ (step c who w).1.value
unfolding step
step-value (do_something n) none v w same = same
step-value (do_something n) (some a) v w same = refl
step-value cause_error none v w same = same
step-value cause_error (some a) v w same = ground arith

run-value :
    {A : Type 0} (xs : List (Call × Option A)) (v w : View A)
    → v.value ≡ w.value
    → (run xs v).value ≡ (run xs w).value
unfolding run
run-value [] v w same = same
run-value ((c, who) ∷ xs) v w same =
    run-value xs (step c who v).1 (step c who w).1 (step-value c who v w same)

module _ (F : Frame) where
  abbrev pub empty_view : View F.AccountId
  empty_view = record { value = none; log = [] }

  -- The stored value is a u32, and is what the specification leaves of nothing after calls with u32
  -- arguments.
  pub record Explained (calls : Extrinsics F) (s : F.State) : Type 0 where
    pub fit : All (λ (call, _). Fits call) calls
    pub range : InRange F s
    pub explained : F.get s ≡ (run (signed_calls F calls) empty_view).value

  pub Explained-none : {s : F.State} → F.get s ≡ none → Explained [] s
  unfolding run
  Explained-none empty = record {
    fit = tt;
    range = λ n held. absurd (ground arith);
    explained = empty;
  }

  pub Explained-get :
      {calls : Extrinsics F} {s t : F.State}
      → Explained calls s
      → F.get t ≡ F.get s
      → Explained calls t
  Explained-get e same = record {
    fit = e.fit;
    range = λ n held. e.range n (sym same ∙ held);
    explained = same ∙ e.explained;
  }

  pub Explained-Same :
      {calls : Extrinsics F} {s t : F.State} → Explained calls s → Same F s t → Explained calls t
  Explained-Same e same = Explained-get e (ap (λ v. v.value) same.viewed)

  pub Explained-Reaches :
      (xs ys : Extrinsics F) {s t : F.State}
      → Explained xs s
      → Reaches F ys s t
      → Explained (xs ++ ys) t
  Explained-Reaches xs ys {s} e r = record {
    fit = All-append F xs ys e.fit r.fit;
    range = r.range;
    explained =
        ap (λ v. v.value) r.viewed
        ∙ run-value (signed_calls F ys) (view F s) (run (signed_calls F xs) empty_view) e.explained
        ∙ sym (ap (λ v. v.value) (run-append F xs ys empty_view));
  }
