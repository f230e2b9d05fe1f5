-- ===== src/Tests/ChaincodeRuns.antt =====
-- The chaincode over a world state that is a function from keys to assets.
use text.Mathlib.TextEquality.{eq_iff}
use substrate_fabric_integra.Base.{
  List, [], ◌∷◌, ℕ, ◌≡◌, ◌≢◌, refl, sym, ap, ◌∙◌, if◌then◌else◌, String, true, Option, none, some,
  arith,
}
use substrate_fabric_integra.Base.Effect.{Result, ok, err}
use substrate_fabric_integra.Base.Outcome.{ok-injective}
use substrate_fabric_integra.Base.Texts.{str_eq}
use substrate_fabric_integra.Chaincode.Stub.{Asset, Stub, IsLawful}
use substrate_fabric_integra.Chaincode.Contract.{
  already_exists, read_asset, create_asset, transfer_asset, asset_of,
}
use substrate_fabric_integra.Chaincode.Ledger.{Ledger, ledger_step, ledger_run}
use substrate_fabric_integra.Chaincode.Refinement.{
  IsReliable, Represents, held_under, invoke_run, invoke_run-ledger_run,
}
use substrate_fabric_integra.Chaincode.Invariant.{KeepsIds, invoke_all, invoke_all-KeepsIds}
use substrate_fabric_integra.Chaincode.Laws.{
  Transaction, transfer, create, invoke, invoke_failed, read_asset-transfer_asset,
}

abbrev World : Type 0
World = String → Option (Asset ℕ)

abbrev listed : Option (Asset ℕ) → List (Result String (Asset ℕ))
listed none = []
listed (some asset) = ok asset ∷ []

-- Only `asset1` is ever listed.
abbrev world_stub : Stub
world_stub = record {
  Int = ℕ;
  Bytes = Asset ℕ;
  Error = String;
  State = World;
  get_state = λ k s. ok (s k);
  put_state = λ k b s. ok (λ j. if str_eq j k then some b else s j);
  del_state = λ k s. ok (λ j. if str_eq j k then none else s j);
  get_state_by_range = λ s. ok (listed (s "asset1"));
  marshal = ok;
  unmarshal = ok;
}

world_stub-IsLawful : IsLawful world_stub
world_stub-IsLawful = record {
  get-put = λ k j b s t h. ap (λ w. world_stub.get_state j w) (sym (ok-injective h)) ∙ ground arith;
  get-del = λ k j s t h. ap (λ w. world_stub.get_state j w) (sym (ok-injective h)) ∙ ground arith;
  unmarshal-marshal = λ a b h. sym h;
}

abbrev empty_world : World
empty_world _ = none

abbrev one_asset : World
one_asset k =
    if str_eq k "asset1" then some (asset_of world_stub "asset1" "blue" 5 "Tomoko" 300) else none

read_asset-transfer_asset_example :
    (asset : Asset ℕ) × ((read_asset world_stub "asset1" one_asset).0 ≡ ok asset)
    × (some "Tomoko" ≡ some asset.owner)
    × ((read_asset world_stub "asset1"
          (transfer_asset world_stub "asset1" "Brad" true one_asset).1).0
        ≡ ok (record asset { owner = "Brad" }))
unfolding transfer_asset
read_asset-transfer_asset_example =
    read_asset-transfer_asset world_stub world_stub-IsLawful "asset1" "asset1" "Brad" one_asset
      (some "Tomoko") refl

invoke_failed_example :
    (invoke world_stub (create "asset1" "red" 6 "Brad" 400) one_asset).1 ≡ one_asset
unfolding create_asset
invoke_failed_example = invoke_failed world_stub (create "asset1" "red" 6 "Brad" 400) one_asset refl

empty-KeepsIds : KeepsIds world_stub empty_world
unfolding read_asset
empty-KeepsIds k a found = absurd (ground arith)

abbrev session : List (Transaction world_stub)
session =
    create "asset1" "blue" 5 "Tomoko" 300
    ∷ create "asset1" "red" 6 "Brad" 400
    ∷ transfer "asset1" "Jin Soo" true
    ∷ []

invoke_all-KeepsIds_example : KeepsIds world_stub (invoke_all world_stub session empty_world)
invoke_all-KeepsIds_example =
    invoke_all-KeepsIds world_stub world_stub-IsLawful session empty_world empty-KeepsIds

world_stub-IsReliable : IsReliable world_stub
world_stub-IsReliable = record {
  marshal = λ a. (a, refl);
  put = λ k b s keyed. (_, refl);
  del = λ k s keyed. (_, refl);
}

keyed : ◌≢◌ {A = String} "asset1" ""
keyed same = ground (arith, eq_iff "asset1" "")

abbrev empty_ledger : Ledger world_stub
empty_ledger _ = none

invoke_run-ledger_run_example :
    ((invoke_run world_stub session empty_world).0
      ≡ ok none ∷ err (already_exists "asset1") ∷ ok (some "Tomoko") ∷ [])
    × Represents world_stub
        (invoke_run world_stub session empty_world).1
        (ledger_run world_stub session empty_ledger).1
    × ((k : String)
        → k ≢ ""
        → (read_asset world_stub k (invoke_run world_stub session empty_world).1).0
          ≡ held_under world_stub k ((ledger_run world_stub session empty_ledger).1 k))
unfolding ledger_run ledger_step
invoke_run-ledger_run_example =
    invoke_run-ledger_run world_stub world_stub-IsLawful world_stub-IsReliable session empty_world
      empty_ledger (keyed, (keyed, ((keyed, refl), tt))) (λ k named. refl)
