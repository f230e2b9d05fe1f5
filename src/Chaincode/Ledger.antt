-- ===== src/Chaincode/Ledger.antt =====
-- What the transactions of interoperability_fabric.go promise, without Fabric: a map from IDs to
-- assets.
use substrate_fabric_integra.Base.{String, Option, none, some, List, [], ◌∷◌, if◌then◌else◌}
use substrate_fabric_integra.Base.Texts.{str_eq}
use substrate_fabric_integra.Base.Effect.{Result, ok, err}
use substrate_fabric_integra.Chaincode.Stub.{Asset, Stub}
use substrate_fabric_integra.Chaincode.Contract.{asset_of}
use substrate_fabric_integra.Chaincode.Laws.{Transaction, create, update, delete, transfer}

-- Why the ledger refuses a transaction.
pub data Refusal : Type 0 where
  in_use absent : (id : String) → Refusal

module _ (S : Stub) where
  abbrev pub Ledger : Type 0
  Ledger = String → Option (Asset S.Int)

  abbrev pub set : String → Option (Asset S.Int) → Ledger → Ledger
  set id held m j = if str_eq j id then held else m j

  abbrev pub Step : Type 0
  Step = Result Refusal (Option String) × Ledger

  -- A transaction, with what the ledger holds under its ID.
  abbrev pub step_on : Transaction S → Option (Asset S.Int) → Ledger → Step
  step_on (create id color size owner value) none m =
      (ok none, set id (some (asset_of S id color size owner value)) m)
  step_on (create id color size owner value) (some _) m = (err (in_use id), m)
  step_on (update id color size owner value) none m = (err (absent id), m)
  step_on (update id color size owner value) (some _) m =
      (ok none, set id (some (asset_of S id color size owner value)) m)
  step_on (delete id) none m = (err (absent id), m)
  step_on (delete id) (some _) m = (ok none, set id none m)
  step_on (transfer id new_owner flag) none m = (err (absent id), m)
  step_on (transfer id new_owner _) (some asset) m =
      (ok (some asset.owner), set id (some (record asset { owner = new_owner })) m)

  abbrev pub id_of : Transaction S → String
  id_of (create id color size owner value) = id
  id_of (update id color size owner value) = id
  id_of (delete id) = id
  id_of (transfer id new_owner flag) = id

  unfoldable pub ledger_step : Transaction S → Ledger → Step
  ledger_step t m = step_on t (m (id_of t)) m

  -- The answers of transactions that run one after the other, and the ledger that they leave.
  unfoldable pub ledger_run :
      List (Transaction S) → Ledger → List (Result Refusal (Option String)) × Ledger
  unfolding ledger_step
  ledger_run [] m = ([], m)
  ledger_run (t ∷ ts) m =
      let (answer, next) = ledger_step t m in
      let (answers, last) = ledger_run ts next in (answer ∷ answers, last)
