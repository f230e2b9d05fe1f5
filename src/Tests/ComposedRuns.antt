-- ===== src/Tests/ComposedRuns.antt =====
-- The template pallet's FRAME in a small runtime, run.
use substrate_fabric_integra.Base.{ℕ, ◌≤◌, ◌≡◌, ◌↔◌, ◌⊎◌, refl, none, some, [], arith}
use substrate_fabric_integra.Base.Word.{u32_max}
use substrate_fabric_integra.Base.Effect.{err}
use substrate_fabric_integra.Pallet.Call.{cause_error, dispatch}
use substrate_fabric_integra.Runtime.Pallets.{template_module, pallet_index}
use substrate_fabric_integra.Runtime.Routing.{IsIsolated}
use substrate_fabric_integra.Pallet.Composition.{something_get}
use substrate_fabric_integra.Runtime.Composed.{solochain}
use substrate_fabric_integra.Runtime.Composed.Laws.{composed-IsIsolated}
use substrate_fabric_integra.Runtime.Composed.Errors.{cause_error-of_module}
use substrate_fabric_integra.Tests.RuntimeRuns.{number_codec, others}
use substrate_fabric_integra.Tests.Composition.{
  State, chain, storage, frame, handlers, handlers-WritesOwn,
}

composed-IsIsolated_example : IsIsolated frame others handlers
composed-IsIsolated_example =
    composed-IsIsolated chain storage others number_codec handlers handlers-WritesOwn

-- Nothing is stored.
abbrev empty : State
empty = record { block = 1; cells = λ k. none; log = [] }

of_module_injective : (p q i j : ℕ) → chain.of_module p i ≡ chain.of_module q j → (p ≡ q) × (i ≡ j)
of_module_injective p q i j same = ground arith

cause_error-of_module_example :
    ((dispatch frame cause_error (some 4) empty).0
      ≡ err (chain.of_module (pallet_index template_module) 0))
    ↔ ((template_module ≡ template_module)
        × ((◌≡◌ {A = ℕ} 0 0 × (something_get (solochain chain) storage number_codec empty ≡ none))
            ⊎ (◌≡◌ {A = ℕ} 0 1
                × ((n : ℕ) × (something_get (solochain chain) storage number_codec empty ≡ some n)
                    × (u32_max ≤ n)))))
cause_error-of_module_example =
    cause_error-of_module chain storage number_codec of_module_injective (some 4) 4 empty refl
      template_module 0
