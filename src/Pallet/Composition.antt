-- ===== src/Pallet/Composition.antt =====
-- What a runtime makes of the declarations of pallets/template/src/lib.rs: the storage item, the event
-- and the error in the runtime's storage, `RuntimeEvent` and `DispatchError`. The storage, the
-- system pallet's events and SCALE are parameters; which runtime it is, is one too.
pub mod Laws
use substrate_fabric_integra.Base.{ℕ, String, Option, none, some, List, [], ◌∷◌, ◌++◌}
use substrate_fabric_integra.Base.Effect.{Result}
use substrate_fabric_integra.Base.Codec.{Codec}
use substrate_fabric_integra.Pallet.Frame.{Frame, Event, Error, none_value, storage_overflow}

-- The variant of `enum Error`, which starts the bytes of a module's error.
unfoldable pub error_index : Error → ℕ
error_index none_value = 0
error_index storage_overflow = 1

-- A runtime, as far as it concerns the template pallet.
pub record Composition : Type 1 where
  pub AccountId : Type 0
  pub Origin : Type 0
  pub DispatchError : Type 0
  pub OverarchingEvent : Type 0
  -- `frame_system::ensure_signed`
  pub ensure_signed : Origin → Result DispatchError AccountId
  -- `DispatchError::Module`, with the pallet's index and the variant's
  pub of_module : (index error : ℕ) → DispatchError
  -- the name and the index of the template pallet
  pub own_name : String
  pub own_index : ℕ
  -- the template pallet's events in those of the runtime, and out of them
  pub into_event : Event AccountId → OverarchingEvent
  pub own_event : OverarchingEvent → List (Event AccountId)

-- A stored u32; bytes that are none count as no value.
abbrev pub read_u32 : Option (ℕ × List ℕ) → Option ℕ
read_u32 none = none
read_u32 (some (n, _)) = some n

abbrev pub stored_u32 : Codec ℕ → Option (List ℕ) → Option ℕ
stored_u32 u32 none = none
stored_u32 u32 (some bytes) = read_u32 (u32.decode bytes)

module _ (C : Composition) where
  -- The chain's storage, and the system pallet's number of the block and events.
  pub record Storage : Type 1 where
    pub Key : Type 0
    pub State : Type 0
    -- `storage_prefix(pallet, item)`
    pub storage_prefix : String → String → Key
    pub get_raw : Key → State → Option (List ℕ)
    pub put_raw : Key → List ℕ → State → State
    pub block_number : State → ℕ
    pub runtime_events : State → List C.OverarchingEvent
    -- `frame_system::Pallet::deposit_event`
    pub deposit : C.OverarchingEvent → State → State

  abbrev pub own_events : List C.OverarchingEvent → List (Event C.AccountId)
  own_events [] = []
  own_events (e ∷ es) = C.own_event e ++ own_events es

  module _ (S : Storage) (u32 : Codec ℕ) where
    -- The key of `Something`.
    abbrev pub something : S.Key
    something = S.storage_prefix C.own_name "Something"

    -- `Something::<T>::get`, `Something::<T>::put`, `Self::deposit_event` and `Error::<T>::into`
    unfoldable pub something_get : S.State → Option ℕ
    something_get s = stored_u32 u32 (S.get_raw something s)

    unfoldable pub something_put : ℕ → S.State → S.State
    something_put n = S.put_raw something (u32.encode n)

    unfoldable pub deposit_event : Event C.AccountId → S.State → S.State
    deposit_event e = S.deposit (C.into_event e)

    unfoldable pub module_error : Error → C.DispatchError
    unfolding error_index
    module_error e = C.of_module C.own_index (error_index e)

    -- The template pallet's FRAME in this runtime.
    abbrev pub composed : Frame
    composed = record {
      AccountId = C.AccountId;
      Origin = C.Origin;
      DispatchError = C.DispatchError;
      State = S.State;
      block_number = S.block_number;
      events = λ s. own_events (S.runtime_events s);
      ensure_signed = C.ensure_signed;
      module_error = module_error;
      get = something_get;
      put = something_put;
      deposit_event = deposit_event;
    }
