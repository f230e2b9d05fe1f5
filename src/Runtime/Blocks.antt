-- ===== src/Runtime/Blocks.antt =====
-- Chains of the runtime of runtime/src/lib.rs, as a node makes them through its APIs: a genesis
-- state that `build_config` makes, and blocks that begin with `initialize_block`, apply extrinsics
-- and end with `finalize_block`.
use mathlib.Core.List.{append_assoc, append-nil}
use substrate_fabric_integra.Base.{
  subst, suc, ◌≡◌, ◌≢◌, sym, ap, ◌∙◌, inl, inr, none, List, [], ◌∷◌, ◌++◌, All, arith,
}
use substrate_fabric_integra.Pallet.Frame.{Frame, IsLawful}
use substrate_fabric_integra.Pallet.History.{Extrinsics}
use substrate_fabric_integra.Runtime.Calls.{Others}
use substrate_fabric_integra.Runtime.Routing.{Handlers, IsIsolated}
use substrate_fabric_integra.Runtime.Sudo.{comes_to, IsSudo, dispatch_runtime_call-Reaches}
use substrate_fabric_integra.Runtime.ApiFrame.{RuntimeTypes, Bytes, RuntimeFrame}
use substrate_fabric_integra.Runtime.GenesisApi.{build_config}
use substrate_fabric_integra.Runtime.Api.{
  genesis, runtime_api, execute_block, initialize_block, apply_extrinsic, finalize_block,
}
use substrate_fabric_integra.Runtime.Executive.{Same-late, Outcome, apply_all, IsLawfulExecutive}
use substrate_fabric_integra.Runtime.Explained.{
  Explained, Explained-none, Explained-get, Explained-Same, Explained-Reaches,
}

pub data Phase : Type 0 where
  between inside : Phase

module _ (F : Frame) (L : IsLawful F) (O : Others) (H : Handlers F O) (isolated : IsIsolated F O H)
    (S : IsSudo F O H) (T : RuntimeTypes) (X : RuntimeFrame T) (seen : T.State → F.State)
    (E : IsLawfulExecutive F O H T X seen) where
  abbrev pub outcome_calls :
      (x : T.Extrinsic) (s : T.State) → Outcome F O H T X seen x s → Extrinsics F
  outcome_calls x s (inl _) = []
  outcome_calls x s (inr (p, c, origin, d)) = comes_to F O H S p c origin d.checked d.valid

  -- The calls of the template pallet that an extrinsic comes to.
  abbrev pub applies : (x : T.Extrinsic) → E.IsOrdinary x → T.State → Extrinsics F
  applies x plain s = outcome_calls x s (E.applied x s plain)

  abbrev pub all_apply : (xs : List T.Extrinsic) → All E.IsOrdinary xs → T.State → Extrinsics F
  all_apply [] _ s = []
  all_apply (x ∷ xs) (plain, rest) s =
      applies x plain s ++ all_apply xs rest (X.apply_extrinsic x s).1

  -- The states of a chain, with the calls of the template pallet that its extrinsics came to so
  -- far: the states between its blocks, whether it made or imported them, and those inside a block
  -- that it makes. The extrinsics are ordinary. A block has the number after that of its parent.
  pub data Chain : Phase → Extrinsics F → T.State → Type 0 where
    genesis_block :
        (json : Bytes) (s : T.State)
        → F.get (seen s) ≡ none
        → Chain between [] (runtime_api T X (genesis (build_config json)) s).1
    begin :
        (calls : Extrinsics F) (h : T.Header) (s : T.State)
        → Chain between calls s
        → E.number h ≡ suc (F.block_number (seen s))
        → Chain inside calls (runtime_api T X (initialize_block h) s).1
    apply :
        (calls : Extrinsics F) (x : T.Extrinsic) (plain : E.IsOrdinary x) (s : T.State)
        → Chain inside calls s
        → Chain inside (calls ++ applies x plain s) (runtime_api T X (apply_extrinsic x) s).1
    end :
        (calls : Extrinsics F) (s : T.State)
        → Chain inside calls s
        → Chain between calls (runtime_api T X finalize_block s).1
    import :
        (calls : Extrinsics F) (b : T.Block) (plain : All E.IsOrdinary (E.extrinsics b))
        (s : T.State)
        → Chain between calls s
        → E.number (E.header b) ≡ suc (F.block_number (seen s))
        → Chain between
            (calls ++ all_apply (E.extrinsics b) plain (X.initialize_block (E.header b) s).1)
            (runtime_api T X (execute_block b) s).1

  -- Explained, and in a block with a number other than that of the genesis block.
  abbrev pub Grown : Extrinsics F → T.State → Type 0
  Grown calls s = Explained F calls (seen s) × (F.block_number (seen s) ≢ 0)

  pub Grown-Outcome :
      (calls : Extrinsics F) (x : T.Extrinsic) (s : T.State) (r : Outcome F O H T X seen x s)
      → Grown calls s
      → Grown (calls ++ outcome_calls x s r) (X.apply_extrinsic x s).1
  Grown-Outcome calls x s (inl same) (e, late) = (
    subst (λ xs. Explained F xs (seen (X.apply_extrinsic x s).1)) (sym (append-nil calls))
        (Explained-Same F e same),
    Same-late F same late,
  )
  Grown-Outcome calls x s (inr (p, c, origin, d)) (e, late) =
      let start = Same-late F d.before late in
      let f = Explained-Same F e d.before in
      let r =
        dispatch_runtime_call-Reaches F L O H isolated S p c origin d.checked d.valid start
          f.range in
      (
        Explained-Same F (Explained-Reaches F calls _ f r) d.after,
        Same-late F d.after (λ zeroth. start (sym r.block_number ∙ zeroth)),
      )

  Grown-apply_all :
      (calls : Extrinsics F) (xs : List T.Extrinsic) (plain : All E.IsOrdinary xs) (s : T.State)
      → Grown calls s
      → Grown (calls ++ all_apply xs plain s) (apply_all T X xs s)
  Grown-apply_all calls [] _ s grown = subst (λ xs. Grown xs s) (sym (append-nil calls)) grown
  Grown-apply_all calls (x ∷ xs) (plain, rest) s grown =
      subst (λ ys. Grown ys (apply_all T X (x ∷ xs) s)) (append_assoc calls (applies x plain s) _)
        (Grown-apply_all (calls ++ applies x plain s) xs rest (X.apply_extrinsic x s).1
          (Grown-Outcome calls x s (E.applied x s plain) grown))

  Grown-initialize :
      (calls : Extrinsics F) (h : T.Header) (s : T.State)
      → Explained F calls (seen s)
      → E.number h ≡ suc (F.block_number (seen s))
      → Grown calls (X.initialize_block h s).1
  Grown-initialize calls h s e next = (
    Explained-get F e (E.get-initialize h s),
    λ zeroth. ground (arith, E.block_number-initialize h s),
  )

  -- What holds of the states in a phase.
  abbrev pub Holds : Phase → Extrinsics F → T.State → Type 0
  Holds between calls s = Explained F calls (seen s)
  Holds inside calls s = Grown calls s

  pub Chain-Holds :
      {ph : Phase} {calls : Extrinsics F} {s : T.State} → Chain ph calls s → Holds ph calls s
  unfolding runtime_api
  Chain-Holds (genesis_block json s empty) =
      Explained-get F (Explained-none F empty) (E.get-build json s)
  Chain-Holds (begin calls h s chain next) = Grown-initialize calls h s (Chain-Holds chain) next
  Chain-Holds (apply calls x plain s chain) =
      Grown-Outcome calls x s (E.applied x s plain) (Chain-Holds chain)
  Chain-Holds (end calls s chain) = Explained-get F (Chain-Holds chain).0 (E.get-finalize s)
  Chain-Holds (import calls b plain s chain next) =
      let begun = Grown-initialize calls (E.header b) s (Chain-Holds chain) next in
      let (e, _) = Grown-apply_all calls (E.extrinsics b) plain _ begun in
      Explained-get F e (ap (λ t. F.get (seen t)) (E.executed b s) ∙ E.get-finalize _)

  -- Over a lawful FRAME and Executive whose other pallets leave the template pallet alone, but for the
  -- calls that sudo dispatches, the stored value of every state that the runtime's APIs make of a state
  -- without one, inside a block, after it, or after a block imported, is a u32, and is what the
  -- specification leaves of nothing after the calls of the template pallet that the extrinsics came
  -- to, in order and with u32 arguments: their own and the innermost of sudo's.
  pub Chain-Explained :
      {ph : Phase} {calls : Extrinsics F} {s : T.State}
      → Chain ph calls s
      → Explained F calls (seen s)
  Chain-Explained {ph = between} chain = Chain-Holds chain
  Chain-Explained {ph = inside} chain = (Chain-Holds chain).0
