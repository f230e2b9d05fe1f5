-- ===== src/Tests/ToyStorage.antt =====
-- A storage with keys of two texts, for any runtime.
use text.Mathlib.TextEquality.{eq_iff}
use substrate_fabric_integra.Base.{
  ℕ, ◌==◌, refl, String, Bool, ◌&&◌, Option, some, List, [], ◌∷◌, ◌++◌, if◌then◌else◌, arith,
}
use substrate_fabric_integra.Base.Texts.{str_eq}
use substrate_fabric_integra.Pallet.Composition.{Composition, Storage}
use substrate_fabric_integra.Pallet.Composition.Laws.{IsLawfulStorage}

pub record StateWith (E : Type 0) : Type 0 where
  pub block : ℕ
  pub cells : String × String → Option (List ℕ)
  pub log : List E

abbrev same_key : String × String → String × String → Bool
same_key (a, b) (c, d) = str_eq a c && str_eq b d

abbrev pub storage_of : (C : Composition) → Storage C
storage_of C = record {
  Key = String × String;
  State = StateWith C.OverarchingEvent;
  storage_prefix = λ pallet item. (pallet, item);
  get_raw = λ k s. s.cells k;
  put_raw = λ k bytes s. record s { cells = λ j. if same_key k j then some bytes else s.cells j };
  block_number = λ s. s.block;
  runtime_events = λ s. s.log;
  deposit = λ e s. if s.block == 0 then s else record s { log = s.log ++ (e ∷ []) };
}

pub storage_of-IsLawful : (C : Composition) → IsLawfulStorage C (storage_of C)
storage_of-IsLawful C = record {
  get-put_raw = λ k bytes s. ground (arith, eq_iff k.0 k.0, eq_iff k.1 k.1);
  events-put_raw = λ item bytes s. refl;
  block_number-put_raw = λ item bytes s. refl;
  get-deposit = λ item e s. ground arith;
  block_number-deposit = λ e s. ground arith;
  events-deposit = λ e s. ground arith;
}
