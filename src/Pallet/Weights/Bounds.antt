-- ===== src/Pallet/Weights/Bounds.antt =====
-- The parts of the weights of pallets/template/src/weights.rs, also when a sum saturates.
use substrate_fabric_integra.Base.{ℕ, ◌+◌, ◌≡◌, refl, min, arith}
use substrate_fabric_integra.Base.Word.{u64_max}
use substrate_fabric_integra.Pallet.Weights.{
  Weights, DbWeight, IsLawful, Costs, substrate_weight, unit_weight,
}

module _ (W : Weights) (L : IsLawful W) {read write : ℕ} where
  pub substrate_weight_parts :
      (db : DbWeight W)
      → Costs W db read write
      → let w = substrate_weight W db in
        (W.ref_time w.do_something ≡ min (9000000 + write) u64_max)
        × (W.proof_size w.do_something ≡ 0)
        × (W.ref_time w.cause_error ≡ min (6000000 + read + write) u64_max)
        × (W.proof_size w.cause_error ≡ 1489)
        × (unit_weight W db ≡ w)
  unfolding substrate_weight unit_weight
  substrate_weight_parts db C = (
    grind (arith, L.ref_time-from_parts, L.ref_time-saturating_add, C.ref_time-writes),
    grind (arith, L.proof_size-from_parts, L.proof_size-saturating_add, C.proof_size-writes),
    grind (
      arith, L.ref_time-from_parts, L.ref_time-saturating_add, C.ref_time-writes, C.ref_time-reads,
    ),
    grind (
      arith, L.proof_size-from_parts, L.proof_size-saturating_add, C.proof_size-writes,
      C.proof_size-reads,
    ),
    refl,
  )
