-- ===== src/Runtime/Time.antt =====
-- The clock of runtime/src/lib.rs: blocks counted in minutes, hours and days, and Aura's slot.
use substrate_fabric_integra.Base.{ℕ, ◌+◌, ◌*◌, ◌%◌, ◌≤◌, ◌<◌, ◌≡◌, ◌↔◌, arith}
use native.Mathlib.Nat.{div-add-mod}
use substrate_fabric_integra.Base.Word.{u32_max}
use substrate_fabric_integra.Runtime.Params.{slot_duration, days, minimum_period}

-- `DAYS` blocks take at most a day, and exactly a day if and only if the block time divides a minute.
pub days_span :
    (ms : ℕ)
    → 0 < ms
    → ms ≤ u32_max
    → (days ms * ms ≤ 86400000) × ((days ms * ms ≡ 86400000) ↔ (60000 % ms ≡ 0))
unfolding days
days_span ms h fits =
    let small : ms % 4294967296 ≡ ms = omega arith in rw small (grind (arith, div-add-mod 60000 ms))

-- Twice the minimum period, the slot that pallet_aura takes, is the slot duration if and only if
-- that is even; otherwise it falls short by a millisecond.
pub slot-minimum_period :
    (ms : ℕ)
    → (minimum_period ms * 2 + ms % 2 ≡ slot_duration ms)
      × ((minimum_period ms * 2 ≡ slot_duration ms) ↔ (ms % 2 ≡ 0))
unfolding minimum_period
slot-minimum_period ms = ground arith
