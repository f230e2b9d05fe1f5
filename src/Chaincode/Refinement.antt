-- ===== src/Chaincode/Refinement.antt =====
-- That the transactions of interoperability_fabric.go keep a ledger of assets.
use substrate_fabric_integra.Base.{
  ◌≡◌, ◌≢◌, All, refl, ◌∙◌, String, Bool, true, false, Option, none, some, List, [], ◌∷◌, map,
  arith, if◌then◌else◌,
}
use substrate_fabric_integra.Base.Texts.{str_eq}
use substrate_fabric_integra.Base.Effect.{Result, ok, err}
use substrate_fabric_integra.Chaincode.Stub.{Asset, Stub, IsLawful}
use substrate_fabric_integra.Chaincode.Contract.{
  ContractError, already_exists, does_not_exist, asset_exists, read_asset, create_asset,
  update_asset, delete_asset, transfer_asset, asset_of, write,
}
use substrate_fabric_integra.Chaincode.Laws.{Transaction, create, update, delete, transfer, invoke}
use substrate_fabric_integra.Chaincode.Ledger.{
  Refusal, in_use, absent, Ledger, set, Step, id_of, step_on, ledger_step, ledger_run,
}

module _ (S : Stub) where
  -- Assets encode, and writes and deletions under keys do not fail; the empty text is no key.
  pub record IsReliable : Type 0 where
    pub marshal : (a : Asset S.Int) → (b : S.Bytes) × (S.marshal a ≡ ok b)
    pub put :
        (k : String) (b : S.Bytes) (s : S.State)
        → k ≢ ""
        → (t : S.State) × (S.put_state k b s ≡ ok t)
    pub del : (k : String) (s : S.State) → k ≢ "" → (t : S.State) × (S.del_state k s ≡ ok t)

  -- The world state holds just this under a key.
  abbrev pub Holds : S.State → String → Option (Asset S.Int) → Type 0
  Holds s k none = S.get_state k s ≡ ok none
  Holds s k (some a) = (b : S.Bytes) × (S.get_state k s ≡ ok (some b)) × (S.unmarshal b ≡ ok a)

  -- The world state holds the assets of a ledger and no others.
  abbrev pub Represents : S.State → Ledger S → Type 0
  Represents s m = (k : String) → k ≢ "" → Holds s k (m k)

  -- A transaction under a key, and of transfers one with the flag.
  abbrev pub Proper : Transaction S → Type 0
  Proper (create id color size owner value) = id ≢ ""
  Proper (update id color size owner value) = id ≢ ""
  Proper (delete id) = id ≢ ""
  Proper (transfer id new_owner flag) = (id ≢ "") × (flag ≡ true)

  Proper-keyed : (t : Transaction S) → Proper t → id_of S t ≢ ""
  Proper-keyed (create id color size owner value) keyed = keyed
  Proper-keyed (update id color size owner value) keyed = keyed
  Proper-keyed (delete id) keyed = keyed
  Proper-keyed (transfer id new_owner flag) (keyed, flagged) = keyed

  -- What the code answers where the ledger refuses.
  abbrev pub reported :
      Result Refusal (Option String) → Result (ContractError S.Error) (Option String)
  reported (ok r) = ok r
  reported (err (in_use id)) = err (already_exists id)
  reported (err (absent id)) = err (does_not_exist id)

  -- The answers of transactions that run one after the other, and the state that they leave.
  unfoldable pub invoke_run :
      List (Transaction S)
      → S.State
      → List (Result (ContractError S.Error) (Option String)) × S.State
  invoke_run [] s = ([], s)
  invoke_run (t ∷ ts) s =
      let (answers, last) = invoke_run ts (invoke S t s).1 in ((invoke S t s).0 ∷ answers, last)

  Holds-get :
      (k : String) (held : Option (Asset S.Int)) (s t : S.State)
      → S.get_state k t ≡ S.get_state k s
      → Holds s k held
      → Holds t k held
  Holds-get k none s t same h = same ∙ h
  Holds-get k (some a) s t same (b, got, back) = (b, same ∙ got, back)

  -- Reading an ID.
  abbrev pub held_under :
      String → Option (Asset S.Int) → Result (ContractError S.Error) (Asset S.Int)
  held_under k none = err (does_not_exist k)
  held_under k (some a) = ok a

  read_asset-Holds :
      (k : String) (held : Option (Asset S.Int)) (s : S.State)
      → Holds s k held
      → (read_asset S k s).0 ≡ held_under k held
  unfolding read_asset
  read_asset-Holds k none s h = ground arith
  read_asset-Holds k (some a) s (b, got, back) = ground arith

  Holds-put :
      (k : String) (a : Asset S.Int) (b : S.Bytes) (held : Option (Asset S.Int)) (s t : S.State)
      (own : Bool)
      → S.get_state k t ≡ (if own then ok (some b) else S.get_state k s)
      → S.unmarshal b ≡ ok a
      → Holds s k held
      → Holds t k (if own then some a else held)
  Holds-put k a b held s t true got back h = (b, got, back)
  Holds-put k a b held s t false got back h = Holds-get k held s t got h

  Holds-del :
      (k : String) (held : Option (Asset S.Int)) (s t : S.State) (own : Bool)
      → S.get_state k t ≡ (if own then ok none else S.get_state k s)
      → Holds s k held
      → Holds t k (if own then none else held)
  Holds-del k held s t true got h = got
  Holds-del k held s t false got h = Holds-get k held s t got h

module _ (S : Stub) (L : IsLawful S) (R : IsReliable S) where
  -- A transaction that answers as a step of the ledger, and leaves what represents its ledger.
  abbrev Refines : Result (ContractError S.Error) (Option String) × S.State → Step S → Type 0
  Refines (answer, t) (result, m) = (answer ≡ reported S result) × Represents S t m

  write-Represents :
      (id : String) (a : Asset S.Int) (s : S.State) (m : Ledger S)
      → id ≢ ""
      → Represents S s m
      → ((write S id a s).0 ≡ ok tt) × Represents S (write S id a s).1 (set S id (some a) m)
  write-Represents id a s m keyed h =
      let (b, made) = R.marshal a in
      let (t, put) = R.put id b s keyed in
      let same : write S id a s ≡ (ok tt, t) = ground arith in
      rw same (
        refl,
        λ k named.
            Holds-put S k a b (m k) s t (str_eq k id) (L.get-put id k b s t put)
              (L.unmarshal-marshal a b made) (h k named),
      )

  Refines-write :
      (id : String) (a : Asset S.Int) (s : S.State) (m : Ledger S) (r : Option String)
      {got : Result (ContractError S.Error) (Option String) × S.State}
      → Represents S s m
      → ((write S id a s).0 ≡ ok tt → got ≡ (ok r, (write S id a s).1))
      → id ≢ ""
      → Refines got (ok r, set S id (some a) m)
  Refines-write id a s m r h answers keyed =
      let (done, represents) = write-Represents id a s m keyed h in
      rw (answers done) (refl, represents)

  -- A transaction that leaves the world state as it was.
  Refines-kept :
      (s : S.State) (m : Ledger S) (result : Result Refusal (Option String))
      {got : Result (ContractError S.Error) (Option String) × S.State}
      → Represents S s m
      → got ≡ (reported S result, s)
      → Refines got (result, m)
  Refines-kept s m result h kept = rw kept (refl, h)

  -- A transaction does what the ledger does on what it holds under the transaction's ID.
  invoke-step_on :
      (t : Transaction S) (held : Option (Asset S.Int)) (s : S.State) (m : Ledger S)
      → Proper S t
      → Holds S s (id_of S t) held
      → Represents S s m
      → Refines (invoke S t s) (step_on S t held m)
  unfolding create_asset update_asset delete_asset transfer_asset asset_exists read_asset
  invoke-step_on (create id color size owner value) none s m keyed got h =
      Refines-write id (asset_of S id color size owner value) s m none h (λ done. ground arith)
        keyed
  invoke-step_on (create id color size owner value) (some _) s m keyed (b, got, back) h =
      Refines-kept s m (err (in_use id)) h (ground arith)
  invoke-step_on (update id color size owner value) none s m keyed got h =
      Refines-kept s m (err (absent id)) h (ground arith)
  invoke-step_on (update id color size owner value) (some _) s m keyed (b, got, back) h =
      Refines-write id (asset_of S id color size owner value) s m none h (λ done. ground arith)
        keyed
  invoke-step_on (delete id) none s m keyed got h =
      Refines-kept s m (err (absent id)) h (ground arith)
  invoke-step_on (delete id) (some _) s m keyed (b, got, back) h =
      let (t, del) = R.del id s keyed in
      let same : invoke S (delete id) s ≡ (ok none, t) = ground arith in
      rw same (
        refl,
        λ k named. Holds-del S k (m k) s t (str_eq k id) (L.get-del id k s t del) (h k named),
      )
  invoke-step_on (transfer id new_owner flag) none s m proper got h =
      Refines-kept s m (err (absent id)) h (ground arith)
  invoke-step_on (transfer id new_owner true) (some a) s m (keyed, flagged) (b, got, back) h =
      Refines-write id (record a { owner = new_owner }) s m (some a.owner) h (λ done. ground arith)
        keyed
  invoke-step_on (transfer id new_owner false) (some a) s m (keyed, flagged) (b, got, back) h =
      absurd (ground arith)

  -- If assets encode and the stub's writes under keys do not fail, then on a world state that
  -- represents a ledger any sequence of transactions under IDs that are not empty, transfers with
  -- their flag true, answers, one by one, as the ledger does, refusals included, and leaves a world
  -- state that represents the ledger left: reading any ID that is not empty then gives just the asset
  -- that the ledger holds, or that there is none.
  pub invoke_run-ledger_run :
      (ts : List (Transaction S)) (s : S.State) (m : Ledger S)
      → All (Proper S) ts
      → Represents S s m
      → let (answers, t) = invoke_run S ts s in
        let (results, n) = ledger_run S ts m in
        (answers ≡ map (reported S) results)
        × Represents S t n
        × ((k : String) → k ≢ "" → (read_asset S k t).0 ≡ held_under S k (n k))
  unfolding invoke_run ledger_run ledger_step read_asset
  invoke_run-ledger_run [] s m _ h = (refl, h, λ k named. read_asset-Holds S k (m k) s (h k named))
  invoke_run-ledger_run (t ∷ ts) s m (proper, rest) h =
      let (answer, next) =
        invoke-step_on t (m (id_of S t)) s m proper (h (id_of S t) (Proper-keyed S t proper)) h in
      let (answers, last, read) =
        invoke_run-ledger_run ts (invoke S t s).1 (ledger_step S t m).1 rest next in
      (λ i. answer i ∷ answers i, last, read)
