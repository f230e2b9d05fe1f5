-- ===== src/Runtime/Composed/Chains.antt =====
-- What the storage of a chain of runtime/src/lib.rs holds for the template pallet.
use substrate_fabric_integra.Base.{ℕ, ◌≤◌, ◌≡◌, refl, All}
use substrate_fabric_integra.Base.Word.{u32_max}
use substrate_fabric_integra.Pallet.Spec.{run}
use substrate_fabric_integra.Pallet.Laws.{Fits}
use substrate_fabric_integra.Pallet.History.{Extrinsics, signed_calls}
use substrate_fabric_integra.Base.Codec.{Codec, IsCodec}
use substrate_fabric_integra.Runtime.Calls.{Others}
use substrate_fabric_integra.Runtime.Routing.{Handlers}
use substrate_fabric_integra.Runtime.Sudo.{IsSudo}
use substrate_fabric_integra.Runtime.ApiFrame.{RuntimeTypes, RuntimeFrame}
use substrate_fabric_integra.Runtime.Executive.{IsLawfulExecutive}
use substrate_fabric_integra.Runtime.Explained.{empty_view}
use substrate_fabric_integra.Runtime.Blocks.{Phase, Chain, Chain-Explained}
use substrate_fabric_integra.Pallet.Composition.{
  Storage, stored_u32, something, something_get, composed,
}
use substrate_fabric_integra.Pallet.Composition.Laws.{IsLawfulStorage, composed-IsLawful}
use substrate_fabric_integra.Runtime.Composed
use substrate_fabric_integra.Runtime.Composed.{solochain}
use substrate_fabric_integra.Runtime.Composed.Laws.{WritesOwn, composed-IsIsolated}

module _ (C : Composed.Chain) (S : Storage (solochain C)) (LS : IsLawfulStorage (solochain C) S)
    (u32 : Codec ℕ) (LU : IsCodec u32 (λ n. n ≤ u32_max)) (O : Others)
    (H : Handlers (composed (solochain C) S u32) O) (W : WritesOwn C S O u32 H)
    (sudo : IsSudo (composed (solochain C) S u32) O H) (T : RuntimeTypes) (X : RuntimeFrame T)
    (seen : T.State → S.State)
    (E : IsLawfulExecutive (composed (solochain C) S u32) O H T X seen) where
  -- If the storage keeps its laws, SCALE reads back a u32, the ordinary calls of FRAME's
  -- pallets but sudo write only under the names of FRAME's pallets, those of sudo do what a valid,
  -- ordinary call of another pallet does or nothing, and
  -- Executive keeps its laws, then in every state that the runtime's APIs make of a state without a
  -- value under `Something` by extrinsics that write no raw storage, not through sudo either, inside a block, after it, or after a block imported, the bytes under
  -- `Something` are read as the value that the specification leaves of nothing after the calls of
  -- the template pallet that the extrinsics came to, in order and with u32 arguments: their own and
  -- the innermost of sudo's.
  pub Chain-something :
      {ph : Phase} {calls : Extrinsics (composed (solochain C) S u32)} {s : T.State}
      → Chain
          (composed (solochain C) S u32)
          (composed-IsLawful (solochain C) S (λ e. refl) LS u32 LU)
          O
          H
          (composed-IsIsolated C S O u32 H W)
          sudo
          T
          X
          seen
          E
          ph
          calls
          s
      → (stored_u32 u32 (S.get_raw (something (solochain C) S u32) (seen s))
          ≡ (run
              (signed_calls (composed (solochain C) S u32) calls)
              (empty_view (composed (solochain C) S u32))).value)
        × All (λ (call, _). Fits call) calls
  unfolding something_get
  Chain-something chain =
      let e =
        Chain-Explained (composed (solochain C) S u32)
          (composed-IsLawful (solochain C) S (λ e. refl) LS u32 LU) O H
          (composed-IsIsolated C S O u32 H W) sudo T X seen E chain in
      (e.explained, e.fit)
