-- ===== src/Pallet/Dispatchables.antt =====
-- The dispatchables of pallets/template/src/lib.rs.
use substrate_fabric_integra.Base.{ℕ, ⊤, Option, none, some}
use substrate_fabric_integra.Base.Word.{u32_max, checked_add}
use substrate_fabric_integra.Base.Effect.{
  ok_or, Action, pure, raise, lift, gets, modify, ◌>>=◌, ◌>>◌,
}
use substrate_fabric_integra.Pallet.Frame.{Frame, something_stored, none_value, storage_overflow}

module _ (F : Frame) where
  open F use {Origin, DispatchError, State, ensure_signed, module_error, get, put, deposit_event}

  unfoldable pub do_something : Origin → ℕ → Action State DispatchError ⊤
  do_something origin something = do
    who ← lift (ensure_signed origin)
    modify (put something)
    modify (deposit_event (something_stored something who))
    pure tt

  -- the `match` on the stored value
  increment : Option ℕ → Action State DispatchError ⊤
  increment none = raise (module_error none_value)
  increment (some old) = do
    new ← lift (ok_or (checked_add u32_max old 1) (module_error storage_overflow))
    modify (put new)
    pure tt

  unfoldable pub cause_error : Origin → Action State DispatchError ⊤
  unfolding increment
  cause_error origin = do _who ← lift (ensure_signed origin); old ← gets get; increment old
