-- ===== src/Base/Texts.antt =====
-- Texts compared: `==` on `&str`, and a check that lists of literals hold no text twice.
use Prim.Native.String.{String}
use mathlib.Core.Path.{◌≡◌, refl}
use mathlib.Core.Logic.{◌≢◌, ◌⊎◌, inl, inr}
use mathlib.Core.Bool.{Bool, true, ◌&&◌, not}
use mathlib.Core.List.{List, [], ◌∷◌}
use native.Mathlib.Omega.{arith}
use text.Mathlib.Text.{◌==◌ as text_eq}
use text.Mathlib.TextEquality.{eq_iff}
use substrate_fabric_integra.Base.Tests.{Bool-cases}
use substrate_fabric_integra.Base.Lists.{All, Distinct}

-- `s == t` on texts
abbrev pub str_eq : String → String → Bool
str_eq s t = text_eq s t

pub str_eq_cases : (s t : String) → (s ≡ t) ⊎ (s ≢ t)
str_eq_cases s t = elim (Bool-cases (str_eq s t)) [
  | inl same ↦ inl ((eq_iff s t).0 same)
  | inr other ↦ inr (λ e. ground (arith, eq_iff s t))
]

abbrev pub absent : String → List String → Bool
absent s [] = true
absent s (t ∷ ts) = not (str_eq s t) && absent s ts

abbrev pub distinct : List String → Bool
distinct [] = true
distinct (s ∷ ts) = absent s ts && distinct ts

pub absent-All : (s : String) (ts : List String) → absent s ts ≡ true → All (λ t. s ≢ t) ts
absent-All s [] h = tt
absent-All s (t ∷ ts) h = ground (arith, eq_iff s t, absent-All s ts)

pub All-absent : (s : String) (ts : List String) → All (λ t. s ≢ t) ts → absent s ts ≡ true
All-absent s [] h = refl
All-absent s (t ∷ ts) (h, hs) = ground (arith, eq_iff s t, All-absent s ts)

pub distinct-Distinct : (ts : List String) → distinct ts ≡ true → Distinct ts
distinct-Distinct [] h = tt
distinct-Distinct (t ∷ ts) h = ground (arith, absent-All t ts, distinct-Distinct ts)
