-- ===== src/Runtime/Composed/Laws.antt =====
-- That FRAME's own pallets leave alone what the template pallet keeps in a chain of
-- runtime/src/lib.rs.
use substrate_fabric_integra.Base.{ℕ, ◌≡◌, ◌≢◌, refl, ap, String, List, [], ◌∷◌}
use substrate_fabric_integra.Base.Texts.{absent-All}
use substrate_fabric_integra.Runtime.Pallets.{
  RuntimePallet, system, timestamp, aura, grandpa, balances, transaction_payment, sudo,
  template_module,
}
use substrate_fabric_integra.Base.Codec.{Codec}
use substrate_fabric_integra.Runtime.Calls.{Others}
use substrate_fabric_integra.Runtime.Routing.{Handlers, IsIsolated}
use substrate_fabric_integra.Pallet.Composition.{
  stored_u32, Storage, own_events, something_get, composed,
}
use substrate_fabric_integra.Runtime.Composed.{pallet_name, Chain, solochain}

other_names : List String
other_names =
    "System" ∷ "Timestamp" ∷ "Aura" ∷ "Grandpa" ∷ "Balances" ∷ "TransactionPayment" ∷ "Sudo" ∷ []

-- No other pallet is called as the template pallet is.
pallet_name_apart : (p : RuntimePallet) → p ≢ template_module → "TemplateModule" ≢ pallet_name p
unfolding pallet_name other_names
pallet_name_apart system foreign = (absent-All "TemplateModule" other_names refl).0
pallet_name_apart timestamp foreign = (absent-All "TemplateModule" other_names refl).1.0
pallet_name_apart aura foreign = (absent-All "TemplateModule" other_names refl).1.1.0
pallet_name_apart grandpa foreign = (absent-All "TemplateModule" other_names refl).1.1.1.0
pallet_name_apart balances foreign = (absent-All "TemplateModule" other_names refl).1.1.1.1.0
pallet_name_apart transaction_payment foreign =
    (absent-All "TemplateModule" other_names refl).1.1.1.1.1.0
pallet_name_apart sudo foreign = (absent-All "TemplateModule" other_names refl).1.1.1.1.1.1.0
pallet_name_apart template_module foreign = absurd (foreign refl)

module _ (C : Chain) (S : Storage (solochain C)) where
  module _ (O : Others) (u32 : Codec ℕ) (H : Handlers (composed (solochain C) S u32) O) where
    -- An ordinary call of a pallet of FRAME but sudo writes only under the names of FRAME's pallets:
    -- its own, those of the pallets that it uses, and the system's, under which events are kept. It
    -- deposits no event of the template pallet, and leaves the block's number.
    pub record WritesOwn : Type 0 where
      pub own_keys :
          (p : RuntimePallet)
          → p ≢ sudo
          → p ≢ template_module
          → (name item : String)
          → ((q : RuntimePallet) → q ≢ template_module → name ≢ pallet_name q)
          → (c : O.CallOf p) (origin : C.Origin) (s : S.State) → O.Ordinary p c
          → let k = S.storage_prefix name item in S.get_raw k (H p c origin s).1 ≡ S.get_raw k s
      pub foreign_events :
          (p : RuntimePallet)
          → p ≢ sudo
          → p ≢ template_module
          → (c : O.CallOf p) (origin : C.Origin) (s : S.State) → O.Ordinary p c
          → own_events (solochain C) (S.runtime_events (H p c origin s).1)
            ≡ own_events (solochain C) (S.runtime_events s)
      pub block_number :
          (p : RuntimePallet)
          → p ≢ sudo
          → p ≢ template_module
          → (c : O.CallOf p) (origin : C.Origin) (s : S.State) → O.Ordinary p c
          → S.block_number (H p c origin s).1 ≡ S.block_number s

    pub composed-IsIsolated : WritesOwn → IsIsolated (composed (solochain C) S u32) O H
    unfolding something_get pallet_name
    composed-IsIsolated W = record {
      view_same = λ p other foreign c origin s plain.
          let value = ap (stored_u32 u32) (
            W.own_keys p other foreign "TemplateModule" "Something" pallet_name_apart c origin s
              plain) in
          let log = W.foreign_events p other foreign c origin s plain in
          λ i. record { value = value i; log = log i };
      block_number_same =
          λ p other foreign c origin s plain. W.block_number p other foreign c origin s plain;
    }
