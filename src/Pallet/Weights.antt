-- ===== src/Pallet/Weights.antt =====
-- pallets/template/src/weights.rs: the weights of the template pallet's calls. `Weight` and the
-- database weights are FRAME's, so they are parameters with their documented arithmetic.
pub mod Bounds
use substrate_fabric_integra.Base.{ℕ, ◌+◌, ◌*◌, ◌≡◌, min}
use substrate_fabric_integra.Base.Word.{u64_max}

-- `frame_support::weights::Weight`
pub record Weights : Type 1 where
  pub Weight : Type 0
  pub from_parts : ℕ → ℕ → Weight
  pub ref_time : Weight → ℕ
  pub proof_size : Weight → ℕ
  pub saturating_add : Weight → Weight → Weight

module _ (W : Weights) where
  open W use {Weight, from_parts, saturating_add}

  -- `RuntimeDbWeight`: the weight of that many reads and writes
  pub record DbWeight : Type 0 where
    pub reads : ℕ → Weight
    pub writes : ℕ → Weight

  -- `trait WeightInfo`
  pub record WeightInfo : Type 0 where
    pub do_something : Weight
    pub cause_error : Weight

  -- `impl WeightInfo for SubstrateWeight<T>`, with `T::DbWeight`
  unfoldable pub substrate_weight : DbWeight → WeightInfo
  substrate_weight db = record {
    do_something = saturating_add (from_parts 9000000 0) (db.writes 1);
    cause_error =
        saturating_add (saturating_add (from_parts 6000000 1489) (db.reads 1)) (db.writes 1);
  }

  -- `impl WeightInfo for ()`, with `RocksDbWeight`
  unfoldable pub unit_weight : DbWeight → WeightInfo
  unit_weight rocks_db_weight = record {
    do_something = saturating_add (from_parts 9000000 0) (rocks_db_weight.writes 1);
    cause_error =
        saturating_add (saturating_add (from_parts 6000000 1489) (rocks_db_weight.reads 1))
          (rocks_db_weight.writes 1);
  }

  pub record IsLawful : Type 0 where
    pub ref_time-from_parts : (t p : ℕ) → W.ref_time (from_parts t p) ≡ t
    pub proof_size-from_parts : (t p : ℕ) → W.proof_size (from_parts t p) ≡ p
    pub ref_time-saturating_add :
        (a b : Weight) → W.ref_time (saturating_add a b) ≡ min (W.ref_time a + W.ref_time b) u64_max
    pub proof_size-saturating_add :
        (a b : Weight)
        → W.proof_size (saturating_add a b) ≡ min (W.proof_size a + W.proof_size b) u64_max

  -- A read costs `read` and a write costs `write` of time, and neither has a proof size.
  pub record Costs (db : DbWeight) (read write : ℕ) : Type 0 where
    pub ref_time-reads : (n : ℕ) → W.ref_time (db.reads n) ≡ min (read * n) u64_max
    pub ref_time-writes : (n : ℕ) → W.ref_time (db.writes n) ≡ min (write * n) u64_max
    pub proof_size-reads : (n : ℕ) → W.proof_size (db.reads n) ≡ 0
    pub proof_size-writes : (n : ℕ) → W.proof_size (db.writes n) ≡ 0
