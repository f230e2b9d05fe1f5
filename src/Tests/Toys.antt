-- ===== src/Tests/Toys.antt =====
-- A FRAME and its weights in the small, for the template pallet.
use substrate_fabric_integra.Base.{
  ℕ, ◌+◌, ◌*◌, ◌==◌, min, refl, if◌then◌else◌, Option, none, some, List, [], ◌∷◌, ◌++◌, arith,
}
use substrate_fabric_integra.Base.Word.{u64_max}
use substrate_fabric_integra.Base.Effect.{Result, ok, err}
use substrate_fabric_integra.Pallet.Frame
use substrate_fabric_integra.Pallet.Frame.{
  Event, something_stored, Error, none_value, storage_overflow,
}
use substrate_fabric_integra.Pallet.Weights

pub record Chain : Type 0 where
  pub block : ℕ
  pub value : Option ℕ
  pub log : List (Event ℕ)

abbrev pub signed_by : Option ℕ → Result (Option Error) ℕ
signed_by none = err none
signed_by (some who) = ok who

-- An origin is an account or nobody; the error of an unsigned origin is `none`.
abbrev pub frame : Frame.Frame
frame = record {
  AccountId = ℕ;
  Origin = Option ℕ;
  DispatchError = Option Error;
  State = Chain;
  block_number = λ s. s.block;
  events = λ s. s.log;
  ensure_signed = signed_by;
  module_error = some;
  get = λ s. s.value;
  put = λ v s. record s { value = some v };
  deposit_event = λ e s. if s.block == 0 then s else record s { log = s.log ++ (e ∷ []) };
}

pub frame-IsLawful : Frame.IsLawful frame
frame-IsLawful = record {
  get-put = λ v s fits. refl;
  events-put = λ v s. refl;
  block_number-put = λ v s. refl;
  get-deposit_event = λ e s. ground arith;
  block_number-deposit_event = λ e s. ground arith;
  events-deposit_event = λ e s. ground arith;
}

-- Weights as pairs of a time and a proof size, and the database of RocksDB.
abbrev pub weights : Weights.Weights
weights = record {
  Weight = ℕ × ℕ;
  from_parts = λ t p. (t, p);
  ref_time = λ w. w.0;
  proof_size = λ w. w.1;
  saturating_add = λ v w. (min (v.0 + w.0) u64_max, min (v.1 + w.1) u64_max);
}

pub weights-IsLawful : Weights.IsLawful weights
weights-IsLawful = record {
  ref_time-from_parts = λ t p. refl;
  proof_size-from_parts = λ t p. refl;
  ref_time-saturating_add = λ a b. refl;
  proof_size-saturating_add = λ a b. refl;
}

abbrev pub rocks_db : Weights.DbWeight weights
rocks_db = record {
  reads = λ n. (min (25000000 * n) u64_max, 0);
  writes = λ n. (min (100000000 * n) u64_max, 0);
}

pub rocks_db-Costs : Weights.Costs weights rocks_db 25000000 100000000
rocks_db-Costs = record {
  ref_time-reads = λ n. refl;
  ref_time-writes = λ n. refl;
  proof_size-reads = λ n. refl;
  proof_size-writes = λ n. refl;
}
