-- ===== src/Runtime/Composed.antt =====
-- The runtime of runtime/src/lib.rs, as far as it concerns the template pallet: the names and the
-- indices of its pallets, and its `RuntimeEvent`.
pub mod Laws
pub mod Errors
pub mod Chains
use substrate_fabric_integra.Base.{ℕ, String, List, [], ◌∷◌}
use substrate_fabric_integra.Base.Effect.{Result}
use substrate_fabric_integra.Pallet.Frame.{Event}
use substrate_fabric_integra.Pallet.Composition.{Composition}
use substrate_fabric_integra.Runtime.Pallets.{
  RuntimePallet, system, timestamp, aura, grandpa, balances, transaction_payment, sudo,
  template_module, pallet_index,
}

-- The name that `#[frame_support::runtime]` gives a pallet's storage.
unfoldable pub pallet_name : RuntimePallet → String
pallet_name system = "System"
pallet_name timestamp = "Timestamp"
pallet_name aura = "Aura"
pallet_name grandpa = "Grandpa"
pallet_name balances = "Balances"
pallet_name transaction_payment = "TransactionPayment"
pallet_name sudo = "Sudo"
pallet_name template_module = "TemplateModule"

-- Accounts, origins, and the events of the other pallets.
pub record Chain : Type 1 where
  pub AccountId : Type 0
  pub Origin : Type 0
  pub DispatchError : Type 0
  pub OtherEvent : RuntimePallet → Type 0
  -- `frame_system::ensure_signed`
  pub ensure_signed : Origin → Result DispatchError AccountId
  -- `DispatchError::Module`, with the pallet's index and the variant's
  pub of_module : (index error : ℕ) → DispatchError

module _ (C : Chain) where
  abbrev pub EventOf : RuntimePallet → Type 0
  EventOf template_module = Event C.AccountId
  EventOf system = C.OtherEvent system
  EventOf timestamp = C.OtherEvent timestamp
  EventOf aura = C.OtherEvent aura
  EventOf grandpa = C.OtherEvent grandpa
  EventOf balances = C.OtherEvent balances
  EventOf transaction_payment = C.OtherEvent transaction_payment
  EventOf sudo = C.OtherEvent sudo

  abbrev pub RuntimeEvent : Type 0
  RuntimeEvent = (p : RuntimePallet) × EventOf p

  -- The template pallet's events among those of the runtime.
  abbrev own_event_of : RuntimeEvent → List (Event C.AccountId)
  own_event_of (template_module, e) = e ∷ []
  own_event_of _ = []

  abbrev pub solochain : Composition
  solochain = record {
    AccountId = C.AccountId;
    Origin = C.Origin;
    DispatchError = C.DispatchError;
    OverarchingEvent = RuntimeEvent;
    ensure_signed = C.ensure_signed;
    of_module = C.of_module;
    own_name = pallet_name template_module;
    own_index = pallet_index template_module;
    into_event = λ e. (template_module, e);
    own_event = own_event_of;
  }
