-- ===== src/Runtime/Answers.antt =====
-- Answers of the runtime APIs of runtime/src/lib.rs that its configuration settles.
use substrate_fabric_integra.Base.{◌*◌, ◌≡◌, refl, ap, ◌∙◌}
use substrate_fabric_integra.Runtime.Params.{
  default_millisecs_per_block, slot_duration, minimum_period,
}
use substrate_fabric_integra.Runtime.Api
use substrate_fabric_integra.Runtime.ApiFrame.{RuntimeTypes, RuntimeFrame}
use substrate_fabric_integra.Runtime.Api.{generate_key_ownership_proof, runtime_api}

module _ (T : RuntimeTypes) (F : RuntimeFrame T) where
  -- If Aura takes twice the minimum period for its slot, as it documents, then the slot duration
  -- that the API answers at any state is `SLOT_DURATION`, six seconds, and asking leaves the state
  -- as it was.
  pub runtime_api-slot_duration :
      ((s : T.State) → F.aura_slot_duration s ≡ minimum_period default_millisecs_per_block * 2)
      → (s : T.State)
      → (runtime_api T F Api.slot_duration s ≡ (slot_duration default_millisecs_per_block, s))
        × (slot_duration default_millisecs_per_block ≡ 6000)
  unfolding runtime_api minimum_period
  runtime_api-slot_duration aura s = (rw (aura s), refl)

  pub answered_slot :
      ((s : T.State) → F.aura_slot_duration s ≡ minimum_period default_millisecs_per_block * 2)
      → (s : T.State) → (runtime_api T F Api.slot_duration s).0 ≡ 6000
  answered_slot aura s =
      let (answer, six) = runtime_api-slot_duration aura s in ap (λ r. r.0) answer ∙ six
