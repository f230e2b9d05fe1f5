-- ===== src/Chaincode/Invariant.antt =====
-- Each asset of interoperability_fabric.go is kept under its own ID, whatever transactions run.
use text.Mathlib.TextEquality.{eq_iff}
use substrate_fabric_integra.Base.{
  ◌≡◌, sym, ◌∙◌, subst, inl, inr, String, true, false, Option, List, [], ◌∷◌, arith, if◌then◌else◌,
}
use substrate_fabric_integra.Base.Texts.{str_eq, str_eq_cases}
use substrate_fabric_integra.Base.Effect.{Result, ok, err, Result-cases}
use substrate_fabric_integra.Chaincode.Stub.{Asset, Stub, IsLawful}
use substrate_fabric_integra.Chaincode.Contract.{
  ContractError, does_not_exist, read_asset, create_asset, update_asset, delete_asset,
  transfer_asset, asset_of,
}
use substrate_fabric_integra.Chaincode.Laws.{
  Transaction, create, update, delete, transfer, invoke, invoke_failed, read_asset-create_asset,
  read_asset-update_asset, read_asset-delete_asset, read_asset-transfer_asset,
}

module _ (S : Stub) where
  -- An asset that is read has the ID under which it is read.
  abbrev pub KeepsIds : S.State → Type 0
  KeepsIds s = (k : String) (a : Asset S.Int) → (read_asset S k s).0 ≡ ok a → a.id ≡ k

  -- One transaction after the other, whether they fail or not.
  abbrev pub invoke_all : List (Transaction S) → S.State → S.State
  invoke_all [] s = s
  invoke_all (t ∷ ts) s = invoke_all ts (invoke S t s).1

  -- What is read after a write is the asset written, or was read before.
  KeepsIds-written :
      (id : String) (new : String → Result (ContractError S.Error) (Asset S.Int)) (s t : S.State)
      → ((k : String)
          → (read_asset S k t).0 ≡ (if str_eq k id then new k else (read_asset S k s).0))
      → ((a : Asset S.Int) → new id ≡ ok a → a.id ≡ id)
      → KeepsIds s
      → KeepsIds t
  KeepsIds-written id new s t reads own before k a found = elim (str_eq_cases k id) [
    | inl same ↦
        own a (subst (λ j. new j ≡ ok a) same (ground (arith, eq_iff k id, reads k))) ∙ sym same
    | inr other ↦ before k a (ground (arith, eq_iff k id, reads k))
  ]

  -- What a writing transaction that succeeds returned, and the state it left.
  create-ok :
      (id color owner : String) (size value : S.Int) (s : S.State) {r : Option String}
      → (invoke S (create id color size owner value) s).0 ≡ ok r
      → ((create_asset S id color size owner value s).0 ≡ ok tt)
        × ((invoke S (create id color size owner value) s).1
            ≡ (create_asset S id color size owner value s).1)
  create-ok id color owner size value s h = (ground arith, ground arith)

  update-ok :
      (id color owner : String) (size value : S.Int) (s : S.State) {r : Option String}
      → (invoke S (update id color size owner value) s).0 ≡ ok r
      → ((update_asset S id color size owner value s).0 ≡ ok tt)
        × ((invoke S (update id color size owner value) s).1
            ≡ (update_asset S id color size owner value s).1)
  update-ok id color owner size value s h = (ground arith, ground arith)

  delete-ok :
      (id : String) (s : S.State) {r : Option String}
      → (invoke S (delete id) s).0 ≡ ok r
      → ((delete_asset S id s).0 ≡ ok tt) × ((invoke S (delete id) s).1 ≡ (delete_asset S id s).1)
  delete-ok id s h = (ground arith, ground arith)

  transfer_asset-false :
      (id new_owner : String) (s : S.State) → (transfer_asset S id new_owner false s).1 ≡ s
  unfolding transfer_asset read_asset
  transfer_asset-false id new_owner s = ground arith

module _ (S : Stub) (L : IsLawful S) where
  invoke-KeepsIds_ok :
      (t : Transaction S) (s : S.State) {r : Option String}
      → (invoke S t s).0 ≡ ok r
      → KeepsIds S s
      → KeepsIds S (invoke S t s).1
  invoke-KeepsIds_ok (create id color size owner value) s h before =
      let (done, left_by) = create-ok S id color owner size value s h in
      rw left_by (
        KeepsIds-written S id (λ _. ok (asset_of S id color size owner value)) s _
          (λ k. (read_asset-create_asset S L id k color owner size value s done).1)
          (λ a e. ground arith) before)
  invoke-KeepsIds_ok (update id color size owner value) s h before =
      let (done, left_by) = update-ok S id color owner size value s h in
      rw left_by (
        KeepsIds-written S id (λ _. ok (asset_of S id color size owner value)) s _
          (λ k. (read_asset-update_asset S L id k color owner size value s done).1)
          (λ a e. ground arith) before)
  invoke-KeepsIds_ok (delete id) s h before =
      let (done, left_by) = delete-ok S id s h in
      rw left_by (
        KeepsIds-written S id (λ k. err (does_not_exist k)) s _
          (λ k. (read_asset-delete_asset S L id k s done).1) (λ a e. ground arith) before)
  invoke-KeepsIds_ok (transfer id new_owner true) s {r} h before =
      let at = λ (k : String). read_asset-transfer_asset S L id k new_owner s r h in
      KeepsIds-written S id (λ k. ok (record ((at k).0) { owner = new_owner })) s _ (λ k. (at k).3)
        (λ a e. ground (arith, before id (at id).0 (at id).1)) before
  invoke-KeepsIds_ok (transfer id new_owner false) s h before =
      rw (transfer_asset-false S id new_owner s) before

  invoke-KeepsIds : (t : Transaction S) (s : S.State) → KeepsIds S s → KeepsIds S (invoke S t s).1
  invoke-KeepsIds t s before = elim (Result-cases (invoke S t s).0) [
    | inl (r, done) ↦ invoke-KeepsIds_ok t s done before
    | inr (e, failed) ↦ subst (KeepsIds S) (sym (invoke_failed S t s failed)) before
  ]

  -- Over a lawful stub, if every asset is kept under its own ID, then so it is after any sequence
  -- of transactions, of which any may fail.
  pub invoke_all-KeepsIds :
      (ts : List (Transaction S)) (s : S.State) → KeepsIds S s → KeepsIds S (invoke_all S ts s)
  invoke_all-KeepsIds [] s before = before
  invoke_all-KeepsIds (t ∷ ts) s before =
      invoke_all-KeepsIds ts (invoke S t s).1 (invoke-KeepsIds t s before)
