-- ===== src/Base/Word.antt =====
-- The machine integers of the code: u32, u64 and u128, with Rust's checked and saturating sums.
use Prim.Native.Nat.{ℕ, ◌+◌}
use mathlib.Core.Option.{Option, none, some}
use substrate_fabric_integra.Base.Tests.{ltb, if◌then◌else◌}

abbrev pub u32_max : ℕ
u32_max = 4294967295

abbrev pub u64_max : ℕ
u64_max = 18446744073709551615

abbrev pub u128_max : ℕ
u128_max = 340282366920938463463374607431768211455

-- `a.checked_add(b)` on a type whose largest value is `bound`
abbrev pub checked_add : ℕ → ℕ → ℕ → Option ℕ
checked_add bound a b = if ltb bound (a + b) then none else some (a + b)
