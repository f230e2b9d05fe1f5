-- ===== src/Tests/Composition.antt =====
-- A small runtime: pallets that write under their own names, and
-- a sudo that calls the template pallet.
use substrate_fabric_integra.Base.{
  ℕ, ◌≡◌, ◌≢◌, refl, ap, ◌∙◌, String, Option, none, some, [], ◌∷◌, arith,
}
use text.Mathlib.TextEquality.{eq_iff}
use substrate_fabric_integra.Base.Effect.{ok, err}
use substrate_fabric_integra.Pallet.Frame.{Frame}
use substrate_fabric_integra.Pallet.Call.{cause_error, dispatch}
use substrate_fabric_integra.Runtime.Pallets.{RuntimePallet, sudo}
use substrate_fabric_integra.Runtime.Routing.{Handlers}
use substrate_fabric_integra.Pallet.Composition.{Storage, own_events, composed}
use substrate_fabric_integra.Pallet.Composition.Laws.{IsLawfulStorage}
use substrate_fabric_integra.Runtime.Composed.{pallet_name, Chain, RuntimeEvent, solochain}
use substrate_fabric_integra.Runtime.Composed.Laws.{WritesOwn}
use substrate_fabric_integra.Tests.ToyStorage.{StateWith, storage_of, storage_of-IsLawful}
use substrate_fabric_integra.Tests.RuntimeRuns.{number_codec, others}

-- A module's error is its indices, and a bad origin is none.
abbrev pub chain : Chain
chain = record {
  AccountId = ℕ;
  Origin = Option ℕ;
  DispatchError = Option (ℕ × ℕ);
  OtherEvent = λ _. ℕ;
  ensure_signed = λ origin. elim origin [ none ↦ err none | some who ↦ ok who ];
  of_module = λ index error. some (index, error);
}

abbrev pub State : Type 0
State = StateWith (RuntimeEvent chain)

abbrev pub storage : Storage (solochain chain)
storage = storage_of (solochain chain)

abbrev pub storage-IsLawful : IsLawfulStorage (solochain chain) storage
storage-IsLawful = storage_of-IsLawful (solochain chain)

abbrev pub frame : Frame
frame = composed (solochain chain) storage number_codec

-- Every call of sudo calls `cause_error` for account 9; all others write under their pallet's name.
abbrev pub handlers : Handlers frame others
handlers sudo c origin s = (ok tt, (dispatch frame cause_error (some 9) s).1)
handlers p c origin s = (ok tt, storage.put_raw (pallet_name p, "Calls") (c ∷ []) s)

-- What a pallet but sudo writes.
abbrev write_own : RuntimePallet → ℕ → State → State
write_own p c s = storage.put_raw (pallet_name p, "Calls") (c ∷ []) s

handlers_other :
    (p : RuntimePallet)
    → p ≢ sudo
    → (c : ℕ) (origin : Option ℕ) (s : State) → (handlers p c origin s).1 ≡ write_own p c s
handlers_other sudo other c origin s = absurd (other refl)
handlers_other p other c origin s = refl

write_own_apart :
    (p : RuntimePallet) (name item : String)
    → name ≢ pallet_name p
    → (c : ℕ) (s : State) → (write_own p c s).cells (name, item) ≡ s.cells (name, item)
write_own_apart p name item foreign c s = ground (arith, eq_iff (pallet_name p) name)

pub handlers-WritesOwn : WritesOwn chain storage others number_codec handlers
handlers-WritesOwn = record {
  own_keys = λ p other outside name item foreign c origin s plain.
      ap (λ t. t.cells (name, item)) (handlers_other p other c origin s)
      ∙ write_own_apart p name item (foreign p outside) c s;
  foreign_events = λ p other foreign c origin s plain.
      ap (λ t. own_events (solochain chain) t.log) (handlers_other p other c origin s);
  block_number =
      λ p other foreign c origin s plain. ap (λ t. t.block) (handlers_other p other c origin s);
}
