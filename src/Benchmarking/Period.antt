-- ===== src/Benchmarking/Period.antt =====
-- The mortality period of node/src/benchmarking.rs: half of the next power of two of the number of
-- block hashes that the chain keeps.
use native.Mathlib.Nat.{pow-zero, pow-suc, one-le-pow, le_trans, le_of_eq}
use substrate_fabric_integra.Base.{
  ℕ, zero, suc, ◌*◌, ◌/◌, ◌^◌, ◌≤◌, ◌<◌, ◌≡◌, refl, ◌∙◌, ◌↔◌, ◌⊎◌, inl, inr, Bool-cases,
  Option-cases, dec_lt, Option, none, some, leb, if◌then◌else◌, arith,
}

-- Doubles from `p` until `n` is reached, at most `fuel` times.
unfoldable pub double_until : ℕ → ℕ → ℕ → Option ℕ
double_until zero p n = none
double_until (suc fuel) p n =
    let rest = double_until fuel (p * 2) n in if leb n p then some p else rest

-- `u32::checked_next_power_of_two`: 2^31 is the largest power of two in a u32.
unfoldable pub checked_next_power_of_two : ℕ → Option ℕ
checked_next_power_of_two n = double_until 32 1 n

abbrev half_or_two : Option ℕ → ℕ
half_or_two none = 2
half_or_two (some c) = c / 2

unfoldable pub period : ℕ → ℕ
period block_hash_count = half_or_two (checked_next_power_of_two block_hash_count)

-- What doubling finds: a power of two that is enough, and the first such from `p` on.
double_until-some :
    (fuel k p n : ℕ) {c : ℕ}
    → p ≡ 2 ^ k
    → double_until fuel p n ≡ some c
    → (j : ℕ) × (c ≡ 2 ^ j) × (n ≤ c) × ((c ≡ p) ⊎ (c < n * 2))
unfolding double_until
double_until-some zero k p n e h = absurd (ground arith)
double_until-some (suc fuel) k p n {c} e h = elim (Bool-cases (leb n p)) [
  | inl enough ↦ (k, ground arith, ground arith, ground arith)
  | inr more ↦
      let found : double_until fuel (p * 2) n ≡ some c = rw (more) at h in
      let (j, pow, enough, first) =
        double_until-some fuel (suc k) (p * 2) n (rw pow-suc (omega arith)) found in
      (j, pow, enough, ground arith)
]

pub double_until-total :
    (fuel p n : ℕ) → n ≤ p * 2 ^ fuel → (c : ℕ) × (double_until (suc fuel) p n ≡ some c)
unfolding double_until
double_until-total zero p n h = (p, ground (arith, pow-zero 2))
double_until-total (suc fuel) p n h = elim (Bool-cases (leb n p)) [
  | inl enough ↦ (p, rw enough)
  | inr more ↦
      let (c, found) =
        double_until-total fuel (p * 2) n (le_trans h (le_of_eq (rw (pow-suc) (omega arith)))) in
      (c, rw more found)
]

double_until-le : (fuel p n : ℕ) {c : ℕ} → double_until (suc fuel) p n ≡ some c → c ≤ p * 2 ^ fuel
unfolding double_until
double_until-le zero p n h = ground (arith, pow-zero 2)
double_until-le (suc fuel) p n {c} h = elim (Bool-cases (leb n p)) [
  | inl enough ↦
      let here : some p ≡ some c = rw enough at h in
      let one : 1 ≤ 2 ^ suc fuel = one-le-pow (suc fuel) 2 (omega arith) in grind arith
  | inr more ↦
      let found : double_until (suc fuel) (p * 2) n ≡ some c = rw more at h in
      let bound : c ≤ (p * 2) * 2 ^ fuel = double_until-le fuel (p * 2) n found in
      rw pow-suc (omega arith)
]

-- The next power of two is missing exactly above 2^31.
pub checked_next_power_of_two-none : (n : ℕ) → (checked_next_power_of_two n ≡ none) ↔ (2 ^ 31 < n)
unfolding checked_next_power_of_two
checked_next_power_of_two-none n = (
  λ h. elim (dec_lt 2147483648 n) [
    | yes above ↦ above
    | no below ↦ let (c, found) = double_until-total 31 1 n (omega arith) in absurd (ground arith)
  ],
  λ above. elim (Option-cases (double_until 32 1 n)) [
    | inl e ↦ e
    | inr (c, found) ↦
        let (j, pow, enough, first) = double_until-some 32 0 1 n refl found in
        absurd (omega (arith, double_until-le 31 1 n found))
  ],
)

-- For a positive number up to 2^31, the next power of two is there: a power of two that is at least
-- the number and less than twice the number.
pub checked_next_power_of_two_lem :
    (n : ℕ)
    → 0 < n
    → n ≤ 2 ^ 31
    → (c : ℕ) × (j : ℕ) × (checked_next_power_of_two n ≡ some c)
      × (c ≡ 2 ^ j)
      × (n ≤ c)
      × (c < n * 2)
unfolding checked_next_power_of_two
checked_next_power_of_two_lem n pos fits =
    let (c, found) = double_until-total 31 1 n (omega arith) in
    let (j, pow, enough, first) = double_until-some 32 0 1 n refl found in
    (c, j, found, pow, enough, ground arith)

half_of_power :
    (n c j : ℕ)
    → checked_next_power_of_two n ≡ some c
    → c ≡ 2 ^ j
    → n ≤ c
    → c < n * 2
    → 2 ≤ n
    → (i : ℕ) × (period n ≡ 2 ^ i) × (period n < n) × (n ≤ period n * 2)
unfolding period
half_of_power n c zero found pow enough less two = absurd (omega arith)
half_of_power n c (suc i) found pow enough less two =
    let doubled : c ≡ 2 ^ i * 2 = pow ∙ pow-suc 2 i in
    let half : period n ≡ 2 ^ i = rw found (omega arith) in (i, half, omega arith, omega arith)

-- Where the chain keeps from 2 to 2^31 block hashes, the period is the largest power of two below
-- their number.
pub period_bounds :
    (n : ℕ)
    → 2 ≤ n
    → n ≤ 2 ^ 31
    → (j : ℕ) × (period n ≡ 2 ^ j) × (period n < n) × (n ≤ period n * 2)
period_bounds n two fits =
    let (c, j, found, pow, enough, less) = checked_next_power_of_two_lem n (omega arith) fits in
    half_of_power n c j found pow enough less two

-- Above 2^31, where the next power of two is not a u32, the period is 2.
pub period_above : (n : ℕ) → 2 ^ 31 < n → period n ≡ 2
unfolding period
period_above n above = rw ((checked_next_power_of_two-none n).1 above) refl
