-- ===== src/Chaincode/Listing.antt =====
-- What `GetAllAssets` of interoperability_fabric.go returns.
use substrate_fabric_integra.Base.{◌≡◌, ◌↔◌, refl, List, [], ◌∷◌, map, arith}
use substrate_fabric_integra.Base.Effect.{Result, ok, err}
use substrate_fabric_integra.Chaincode.Stub.{Asset, Stub}
use substrate_fabric_integra.Chaincode.Contract.{collect, get_all_assets}

module _ (S : Stub) where
  -- What an answer of the iterator holds.
  abbrev pub entry : Result S.Error S.Bytes → Result S.Error (Asset S.Int)
  entry (ok value) = S.unmarshal value
  entry (err e) = err e

  collect-eq-ok :
      (results : List (Result S.Error S.Bytes)) (assets : List (Asset S.Int))
      → (collect S results ≡ ok assets) ↔ (map entry results ≡ map ok assets)
  unfolding collect
  collect-eq-ok [] [] = (λ h. ground arith, λ h. refl)
  collect-eq-ok [] (a ∷ ts) = (λ h. ground arith, λ h. ground arith)
  collect-eq-ok (err e ∷ rs) [] = (λ h. ground arith, λ h. ground arith)
  collect-eq-ok (err e ∷ rs) (a ∷ ts) = (λ h. ground arith, λ h. ground arith)
  collect-eq-ok (ok v ∷ rs) [] = (λ h. ground arith, λ h. ground arith)
  collect-eq-ok (ok v ∷ rs) (a ∷ ts) =
      (λ h. ground (arith, collect-eq-ok rs ts), λ h. ground (arith, collect-eq-ok rs ts))

  -- The list of all assets is made exactly when every answer of the iterator is an asset, and then it
  -- holds these assets in the iterator's order.
  pub get_all_assets-eq-ok :
      (s : S.State) (results : List (Result S.Error S.Bytes)) (assets : List (Asset S.Int))
      → S.get_state_by_range s ≡ ok results
      → ((get_all_assets S s).0 ≡ ok assets) ↔ (map entry results ≡ map ok assets)
  unfolding get_all_assets
  get_all_assets-eq-ok s results assets h =
      let (only_if, if_so) = collect-eq-ok results assets in
      (λ e. only_if (ground arith), λ e. let c = if_so e in ground arith)
