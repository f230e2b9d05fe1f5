-- ===== src/Chaincode/Laws.antt =====
-- What the methods of interoperability_fabric.go do to the asset that they name and to the others.
use substrate_fabric_integra.Base.{
  ⊤, sym, ap, ◌∙◌, inl, inr, ◌≡◌, String, Bool, true, Option, none, some, arith, if◌then◌else◌,
}
use substrate_fabric_integra.Base.Texts.{str_eq}
use substrate_fabric_integra.Base.Effect.{ok, err, Result-cases, pure, ◌>>◌}
use substrate_fabric_integra.Chaincode.Stub.{Asset, Stub, IsLawful}
use substrate_fabric_integra.Chaincode.Contract.{
  ContractError, does_not_exist, Method, read_asset, create_asset, update_asset, delete_asset,
  transfer_asset, write, asset_of,
}

module _ (S : Stub) where
  -- The transactions that write.
  pub data Transaction : Type 0 where
    create update :
        (id color : String) (size : S.Int) (owner : String) (value : S.Int) → Transaction
    delete : (id : String) → Transaction
    transfer : (id new_owner : String) (flag : Bool) → Transaction

  abbrev answerless : Method S ⊤ → Method S (Option String)
  answerless m = m >> pure none

  -- A transaction, with the text that it answers if any.
  abbrev pub invoke : Transaction → Method S (Option String)
  invoke (create id color size owner value) = answerless (create_asset S id color size owner value)
  invoke (update id color size owner value) = answerless (update_asset S id color size owner value)
  invoke (delete id) = answerless (delete_asset S id)
  invoke (transfer id new_owner flag) = transfer_asset S id new_owner flag

  -- A transaction that returns an error leaves the world state as it was.
  pub invoke_failed :
      (t : Transaction) (s : S.State) {e : ContractError S.Error}
      → (invoke t s).0 ≡ err e
      → (invoke t s).1 ≡ s
  unfolding create_asset update_asset delete_asset transfer_asset
  invoke_failed (create id color size owner value) s h = ground arith
  invoke_failed (update id color size owner value) s h = ground arith
  invoke_failed (delete id) s h = ground arith
  invoke_failed (transfer id new_owner flag) s h = ground arith

module _ (S : Stub) where
  -- A write that succeeds encoded the asset and put the bytes.
  write-ok :
      (id : String) (a : Asset S.Int) (s : S.State)
      → (write S id a s).0 ≡ ok tt
      → (b : S.Bytes) × (S.marshal a ≡ ok b) × (S.put_state id b s ≡ ok (write S id a s).1)
  write-ok id a s h = elim (Result-cases (S.marshal a)) [
    | inl (b, made) ↦ (b, made, ground arith)
    | inr (e, failed) ↦ ground arith
  ]

module _ (S : Stub) where
  -- A successful creation found no asset and wrote the one it made.
  create_asset-ok :
      (id color owner : String) (size value : S.Int) (s : S.State)
      → (create_asset S id color size owner value s).0 ≡ ok tt
      → (S.get_state id s ≡ ok none)
        × (create_asset S id color size owner value s
            ≡ write S id (asset_of S id color size owner value) s)
  unfolding create_asset
  create_asset-ok id color owner size value s h = ground arith

  update_asset-ok :
      (id color owner : String) (size value : S.Int) (s : S.State)
      → (update_asset S id color size owner value s).0 ≡ ok tt
      → ¬ (S.get_state id s ≡ ok none)
        × (update_asset S id color size owner value s
            ≡ write S id (asset_of S id color size owner value) s)
  unfolding update_asset
  update_asset-ok id color owner size value s h = (λ e. ground arith, ground arith)

  delete_asset-ok :
      (id : String) (s : S.State)
      → (delete_asset S id s).0 ≡ ok tt
      → ¬ (S.get_state id s ≡ ok none) × (S.del_state id s ≡ ok (delete_asset S id s).1)
  unfolding delete_asset
  delete_asset-ok id s h = (λ e. ground arith, ground arith)

  -- A successful transfer read the asset and wrote it with the new owner.
  transfer_asset-ok :
      (id new_owner : String) (s : S.State) (old : Option String)
      → (transfer_asset S id new_owner true s).0 ≡ ok old
      → (asset : Asset S.Int) × ((read_asset S id s).0 ≡ ok asset)
        × (old ≡ some asset.owner)
        × ((write S id (record asset { owner = new_owner }) s).0 ≡ ok tt)
        × ((transfer_asset S id new_owner true s).1
            ≡ (write S id (record asset { owner = new_owner }) s).1)
  unfolding transfer_asset read_asset
  transfer_asset-ok id new_owner s old h = elim (Result-cases (read_asset S id s).0) [
    | inl (asset, found) ↦ (asset, found, ground arith, ground arith, ground arith)
    | inr (e, failed) ↦ ground arith
  ]

module _ (S : Stub) (L : IsLawful S) where
  read_asset-put :
      (id j : String) (a : Asset S.Int) (b : S.Bytes) (s t : S.State)
      → S.put_state id b s ≡ ok t
      → S.unmarshal b ≡ ok a
      → (read_asset S j t).0 ≡ (if str_eq j id then ok a else (read_asset S j s).0)
  unfolding read_asset
  read_asset-put id j a b s t put back = let got = L.get-put id j b s t put in ground arith

  read_asset-del :
      (id j : String) (s t : S.State)
      → S.del_state id s ≡ ok t
      → (read_asset S j t).0
        ≡ (if str_eq j id then err (does_not_exist j) else (read_asset S j s).0)
  unfolding read_asset
  read_asset-del id j s t del = let got = L.get-del id j s t del in ground arith

  -- Reading after a write that succeeds.
  read_asset-write :
      (id j : String) (a : Asset S.Int) (s : S.State)
      → (write S id a s).0 ≡ ok tt
      → (read_asset S j (write S id a s).1).0 ≡ (if str_eq j id then ok a else (read_asset S j s).0)
  read_asset-write id j a s h =
      let (b, made, put) = write-ok S id a s h in
      read_asset-put id j a b s (write S id a s).1 put (L.unmarshal-marshal a b made)

  -- Over a lawful stub, a successful creation was of an id that the world state did not hold.
  -- Reading that id then gives exactly the asset made, and reading another id gives what it gave
  -- before.
  pub read_asset-create_asset :
      (id j color owner : String) (size value : S.Int) (s : S.State)
      → (create_asset S id color size owner value s).0 ≡ ok tt
      → (S.get_state id s ≡ ok none)
        × ((read_asset S j (create_asset S id color size owner value s).1).0 ≡ (
            if str_eq j id
            then ok (asset_of S id color size owner value)
            else (read_asset S j s).0))
  read_asset-create_asset id j color owner size value s h =
      let (fresh, same) = create_asset-ok S id color owner size value s h in
      let a = asset_of S id color size owner value in
      (fresh, rw same (read_asset-write id j a s (ap (λ p. p.0) (sym same) ∙ h)))

  -- Over a lawful stub, a successful update was of an id that the world state held. Reading that id
  -- then gives exactly the asset made, and reading another id gives what it gave before.
  pub read_asset-update_asset :
      (id j color owner : String) (size value : S.Int) (s : S.State)
      → (update_asset S id color size owner value s).0 ≡ ok tt
      → ¬ (S.get_state id s ≡ ok none)
        × ((read_asset S j (update_asset S id color size owner value s).1).0 ≡ (
            if str_eq j id
            then ok (asset_of S id color size owner value)
            else (read_asset S j s).0))
  read_asset-update_asset id j color owner size value s h =
      let (held, same) = update_asset-ok S id color owner size value s h in
      let a = asset_of S id color size owner value in
      (held, rw same (read_asset-write id j a s (ap (λ p. p.0) (sym same) ∙ h)))

  -- Over a lawful stub, a successful deletion was of an id that the world state held. Reading that
  -- id then fails because it does not exist, and reading another id gives what it gave before.
  pub read_asset-delete_asset :
      (id j : String) (s : S.State)
      → (delete_asset S id s).0 ≡ ok tt
      → ¬ (S.get_state id s ≡ ok none)
        × ((read_asset S j (delete_asset S id s).1).0
            ≡ (if str_eq j id then err (does_not_exist j) else (read_asset S j s).0))
  read_asset-delete_asset id j s h =
      let (held, gone) = delete_asset-ok S id s h in
      (held, read_asset-del id j s (delete_asset S id s).1 gone)

  -- Over a lawful stub, a successful transfer, with `flag` true, returns the owner that the asset
  -- had; the asset then has the new owner and is otherwise as it was, and the other assets are
  -- unchanged.
  pub read_asset-transfer_asset :
      (id j new_owner : String) (s : S.State) (old : Option String)
      → (transfer_asset S id new_owner true s).0 ≡ ok old
      → (asset : Asset S.Int) × ((read_asset S id s).0 ≡ ok asset)
        × (old ≡ some asset.owner)
        × ((read_asset S j (transfer_asset S id new_owner true s).1).0 ≡ (
            if str_eq j id then ok (record asset { owner = new_owner }) else (read_asset S j s).0))
  read_asset-transfer_asset id j new_owner s old h =
      let (asset, found, was, wrote, same) = transfer_asset-ok S id new_owner s old h in
      (
        asset,
        found,
        was,
        rw same (read_asset-write id j (record asset { owner = new_owner }) s wrote),
      )
