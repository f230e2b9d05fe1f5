-- ===== src/Runtime/Composed/Errors.antt =====
-- The errors of the template pallet as clients of runtime/src/lib.rs see them: the index of the
-- pallet and the index of the variant.
use substrate_fabric_integra.Base.{ℕ, ◌≤◌, ◌≡◌, ◌↔◌, ◌⊎◌, inl, inr, refl, none, some, arith}
use substrate_fabric_integra.Base.Word.{u32_max}
use substrate_fabric_integra.Base.Effect.{ok, err}
use substrate_fabric_integra.Pallet.Frame.{Frame, none_value, storage_overflow}
use substrate_fabric_integra.Pallet.Call.{cause_error, dispatch}
use substrate_fabric_integra.Runtime.Pallets.{RuntimePallet, template_module, pallet_index}
use substrate_fabric_integra.Base.Codec.{Codec}
use substrate_fabric_integra.Pallet.Composition.{
  error_index, Storage, something_get, module_error, composed,
}
use substrate_fabric_integra.Runtime.Composed.{Chain, solochain}

own_index_only :
    (p : RuntimePallet) → pallet_index p ≡ pallet_index template_module → p ≡ template_module
unfolding pallet_index
own_index_only p h = ground arith

module _ (F : Frame) where
  -- The errors of `cause_error`, with a signature.
  cause_error-eq-err :
      (origin : F.Origin) (who : F.AccountId) (s : F.State) (e : F.DispatchError)
      → F.ensure_signed origin ≡ ok who
      → ((dispatch F cause_error origin s).0 ≡ err e) ↔ (
          ((F.get s ≡ none) × (e ≡ F.module_error none_value))
          ⊎ ((n : ℕ) × (F.get s ≡ some n) × (u32_max ≤ n) × (e ≡ F.module_error storage_overflow)))
  unfolding dispatch
  cause_error-eq-err origin who s e signed = (λ h. ground arith, λ h. ground arith)

module _ (C : Chain) (S : Storage (solochain C)) (u32 : Codec ℕ) where
  -- If different indices make different module errors, then a signed `cause_error` fails with a
  -- module's error exactly if the indices are those of the template pallet and of `NoneValue` and
  -- no value is stored, or those of the template pallet and of `StorageOverflow` and the stored
  -- value has reached the largest u32.
  pub cause_error-of_module :
      ((p q i j : ℕ) → C.of_module p i ≡ C.of_module q j → (p ≡ q) × (i ≡ j))
      → (origin : C.Origin) (who : C.AccountId) (s : S.State) → C.ensure_signed origin ≡ ok who
      → (p : RuntimePallet) (i : ℕ)
      → ((dispatch (composed (solochain C) S u32) cause_error origin s).0
          ≡ err (C.of_module (pallet_index p) i))
        ↔ ((p ≡ template_module)
            × (((i ≡ 0) × (something_get (solochain C) S u32 s ≡ none))
                ⊎ ((i ≡ 1)
                    × ((n : ℕ) × (something_get (solochain C) S u32 s ≡ some n) × (u32_max ≤ n)))))
  unfolding module_error error_index
  cause_error-of_module injective origin who s signed p i =
      let (one, two) =
        cause_error-eq-err (composed (solochain C) S u32) origin who s
          (C.of_module (pallet_index p) i) signed in
      (
        λ h. elim (one h) [
          | inl (empty, e) ↦
              let (same, first) = injective _ _ _ _ e in (own_index_only p same, inl (first, empty))
          | inr (n, held, large, e) ↦
              let (same, second) = injective _ _ _ _ e in
              (own_index_only p same, inr (second, (n, held, large)))
        ],
        λ (own, why). elim why [
          | inl (first, empty) ↦ two (inl (empty, rw (own, first) refl))
          | inr (second, (n, held, large)) ↦ two (inr (n, held, large, rw (own, second) refl))
        ],
      )
