-- ===== src/Pallet/Frame.antt =====
-- What FRAME gives the pallet of pallets/template/src/lib.rs: an origin that may be signed, one
-- storage value, and the deposit of events. FRAME is not part of the repository, so it is a
-- parameter, and `IsLawful` holds what its documentation says.
use substrate_fabric_integra.Base.{
  ℕ, ◌==◌, ◌≤◌, ◌≡◌, List, [], ◌∷◌, ◌++◌, Option, some, if◌then◌else◌,
}
use substrate_fabric_integra.Base.Effect.{Result}
use substrate_fabric_integra.Base.Word.{u32_max}

-- `enum Event`
pub data Event (AccountId : Type 0) : Type 0 where
  something_stored : (something : ℕ) (who : AccountId) → Event AccountId

-- `enum Error`
pub data Error : Type 0 where
  none_value storage_overflow : Error

pub record Frame : Type 1 where
  pub AccountId : Type 0
  pub Origin : Type 0
  pub DispatchError : Type 0
  -- the chain's state
  pub State : Type 0
  pub block_number : State → ℕ
  pub events : State → List (Event AccountId)
  -- `frame_system::ensure_signed`
  pub ensure_signed : Origin → Result DispatchError AccountId
  -- `Error::<T>::into`
  pub module_error : Error → DispatchError
  -- `Something::<T>::get` and `Something::<T>::put`
  pub get : State → Option ℕ
  pub put : ℕ → State → State
  pub deposit_event : Event AccountId → State → State

-- A u32 that is written is read back, and a write touches nothing else. An event is appended to the
-- block's events, but not in the genesis block, and touches no storage value.
pub record IsLawful (F : Frame) : Type 0 where
  pub get-put : (v : ℕ) (s : F.State) → v ≤ u32_max → F.get (F.put v s) ≡ some v
  pub events-put : (v : ℕ) (s : F.State) → F.events (F.put v s) ≡ F.events s
  pub block_number-put : (v : ℕ) (s : F.State) → F.block_number (F.put v s) ≡ F.block_number s
  pub get-deposit_event :
      (e : Event F.AccountId) (s : F.State) → F.get (F.deposit_event e s) ≡ F.get s
  pub block_number-deposit_event :
      (e : Event F.AccountId) (s : F.State)
      → F.block_number (F.deposit_event e s) ≡ F.block_number s
  pub events-deposit_event :
      (e : Event F.AccountId) (s : F.State)
      → F.events (F.deposit_event e s)
        ≡ (if F.block_number s == 0 then F.events s else F.events s ++ (e ∷ []))
