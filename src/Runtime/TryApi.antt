-- ===== src/Runtime/TryApi.antt =====
-- `frame_try_runtime::TryRuntime` of runtime/src/lib.rs. A panic, which is intended there, is an error
-- with its text. Executive is FRAME's.
use substrate_fabric_integra.Base.{String, Bool, ◌<>◌}
use substrate_fabric_integra.Base.Effect.{Result, ok, err}
use substrate_fabric_integra.Base.Outcome.{Failure, panicked}
use substrate_fabric_integra.Pallet.Weights.{Weights}
use substrate_fabric_integra.Runtime.Limits.{FrameLimits, block_weights}

pub record TryHost (W : Weights) : Type 1 where
  pub State : Type 0
  pub Block : Type 0
  pub Checks : Type 0
  pub Select : Type 0
  pub Error : Type 0
  pub debug : Error → String
  pub try_runtime_upgrade : Checks → State → Result Error W.Weight × State
  pub try_execute_block :
      Block
      → (state_root_check signature_check : Bool) → Select
      → State
      → Result Error W.Weight × State

module _ (W : Weights) (F : FrameLimits W) (H : TryHost W) where
  open H use {State, Block, Checks, Select}

  abbrev Panics : Type 0 → Type 0
  Panics A = Result (Failure String) A × State

  -- `.unwrap()`
  unfoldable pub on_runtime_upgrade : Checks → State → Panics (W.Weight × W.Weight)
  unfolding block_weights
  on_runtime_upgrade checks s =
      let (weight, t) = H.try_runtime_upgrade checks s in
      elim weight [
        | ok w ↦ (ok (w, (block_weights W F).max_block), t)
        | err e ↦ (err (panicked ("called `Result::unwrap()` on an `Err` value: " <> H.debug e)), t)
      ]

  -- `.expect("execute-block failed")`
  unfoldable pub execute_block : Block → Bool → Bool → Select → State → Panics W.Weight
  execute_block block state_root_check signature_check select s =
      let (weight, t) = H.try_execute_block block state_root_check signature_check select s in
      elim weight [
        | ok w ↦ (ok w, t)
        | err e ↦ (err (panicked ("execute-block failed: " <> H.debug e)), t)
      ]
