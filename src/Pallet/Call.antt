-- ===== src/Pallet/Call.antt =====
-- The `Call` that `#[pallet::call]` in pallets/template/src/lib.rs makes of the dispatchables, and
-- the sequences of extrinsics that a chain applies.
use substrate_fabric_integra.Base.{ℕ, ⊤, List, [], ◌∷◌}
use substrate_fabric_integra.Base.Effect.{Action}
use substrate_fabric_integra.Pallet.Frame.{Frame}
use substrate_fabric_integra.Pallet.Dispatchables

pub data Call : Type 0 where
  do_something : (something : ℕ) → Call
  cause_error : Call

-- `#[pallet::call_index]`
unfoldable pub call_index : Call → ℕ
call_index (do_something _) = 0
call_index cause_error = 1

module _ (F : Frame) where
  unfoldable pub dispatch : Call → F.Origin → Action F.State F.DispatchError ⊤
  unfolding Dispatchables.do_something Dispatchables.cause_error
  dispatch (do_something something) origin = Dispatchables.do_something F origin something
  dispatch cause_error origin = Dispatchables.cause_error F origin

  -- One extrinsic after the other; a failed one is skipped.
  unfoldable pub dispatch_all : List (Call × F.Origin) → F.State → F.State
  dispatch_all [] s = s
  dispatch_all ((call, origin) ∷ rest) s = dispatch_all rest (dispatch call origin s).1
