-- ===== src/Runtime/Executive.antt =====
-- What Executive does to the state of the chain, as far as the template pallet of
-- runtime/src/lib.rs sees it: FRAME's documented order of a block and of an extrinsic, over the
-- dispatch of the runtime.
use substrate_fabric_integra.Base.{ℕ, ◌≡◌, ◌≢◌, sym, ◌∙◌, ◌⊎◌, List, [], ◌∷◌}
use substrate_fabric_integra.Pallet.Frame.{Frame}
use substrate_fabric_integra.Pallet.Laws.{view}
use substrate_fabric_integra.Runtime.Pallets.{RuntimePallet}
use substrate_fabric_integra.Runtime.Calls.{Others, CallsOf}
use substrate_fabric_integra.Runtime.Sudo.{Harmless}
use substrate_fabric_integra.Runtime.Routing.{Handlers, dispatch_runtime_call}
use substrate_fabric_integra.Runtime.ApiFrame.{RuntimeTypes, Bytes, RuntimeFrame}

-- Two states that the template pallet cannot tell apart.
pub record Same (F : Frame) (s t : F.State) : Type 0 where
  pub viewed : view F t ≡ view F s
  pub block_number : F.block_number t ≡ F.block_number s

pub Same-late :
    (F : Frame) {s t : F.State} → Same F s t → F.block_number s ≢ 0 → F.block_number t ≢ 0
Same-late F same late zeroth = late (sym same.block_number ∙ zeroth)

module _ (T : RuntimeTypes) (X : RuntimeFrame T) where
  -- Extrinsics applied one after the other.
  abbrev pub apply_all : List T.Extrinsic → T.State → T.State
  apply_all [] s = s
  apply_all (x ∷ xs) s = apply_all xs (X.apply_extrinsic x s).1

-- The state of the APIs, as the pallets see it.
module _ (F : Frame) (O : Others) (H : Handlers F O) (T : RuntimeTypes) (X : RuntimeFrame T)
    (seen : T.State → F.State) where
  -- An extrinsic dispatches a valid, ordinary call of a pallet, after checks and before the
  -- payment of fees, which the template pallet does not see.
  pub record Dispatches (x : T.Extrinsic) (s : T.State) (p : RuntimePallet) (c : CallsOf O p)
      (origin : F.Origin) : Type 0 where
    pub checked : F.State
    pub valid : Harmless O p c
    pub before : Same F (seen s) checked
    pub after :
        Same F
          (dispatch_runtime_call F O H (p, c) origin checked).1
          (seen (X.apply_extrinsic x s).1)

  -- An extrinsic that is refused leaves no trace; any other dispatches its call.
  abbrev pub Outcome : T.Extrinsic → T.State → Type 0
  Outcome x s =
      Same F (seen s) (seen (X.apply_extrinsic x s).1)
      ⊎ ((p : RuntimePallet) × (c : CallsOf O p) × (origin : F.Origin) × Dispatches x s p c origin)

  -- The genesis builder writes nothing for the template pallet, which has no genesis configuration.
  -- A block begins with the number of its header. Neither the beginning nor the end of a block
  -- touches the pallet's value. A block is executed as it was made. Extrinsics are ordinary if their
  -- calls write no raw storage, not through sudo either.
  pub record IsLawfulExecutive : Type 1 where
    pub get-build :
        (json : Bytes) (s : T.State) → F.get (seen (X.build_config json s).1) ≡ F.get (seen s)
    pub number : T.Header → ℕ
    pub block_number-initialize :
        (h : T.Header) (s : T.State) → F.block_number (seen (X.initialize_block h s).1) ≡ number h
    pub get-initialize :
        (h : T.Header) (s : T.State) → F.get (seen (X.initialize_block h s).1) ≡ F.get (seen s)
    pub get-finalize : (s : T.State) → F.get (seen (X.finalize_block s).1) ≡ F.get (seen s)
    pub header : T.Block → T.Header
    pub extrinsics : T.Block → List T.Extrinsic
    pub executed :
        (b : T.Block) (s : T.State)
        → X.execute_block b s
          ≡ (X.finalize_block (apply_all T X (extrinsics b) (X.initialize_block (header b) s).1)).1
    pub IsOrdinary : T.Extrinsic → Type 0
    pub applied : (x : T.Extrinsic) (s : T.State) → IsOrdinary x → Outcome x s
