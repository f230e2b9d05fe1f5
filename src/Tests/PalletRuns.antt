-- ===== src/Tests/PalletRuns.antt =====
-- The template pallet, its weights and the runtime's clock, run.
use substrate_fabric_integra.Base.{ℕ, ◌≡◌, refl, Option, none, some, List, [], ◌∷◌, ◌++◌, arith}
use substrate_fabric_integra.Pallet.Call.{Call, do_something, cause_error, dispatch_all}
use substrate_fabric_integra.Pallet.Counter.{increments, get-dispatch_all-increments}
use substrate_fabric_integra.Tests.Toys.{
  Chain, frame, frame-IsLawful, weights, weights-IsLawful, rocks_db, rocks_db-Costs,
}
use substrate_fabric_integra.Pallet.Frame.{something_stored}
use substrate_fabric_integra.Pallet.Spec.{run, step}
use substrate_fabric_integra.Pallet.Laws.{view}
use substrate_fabric_integra.Pallet.History.{view-dispatch_all, events-dispatch_all}
use substrate_fabric_integra.Pallet.Weights.{substrate_weight, unit_weight}
use substrate_fabric_integra.Pallet.Weights.Bounds.{substrate_weight_parts}

abbrev empty_chain : Chain
empty_chain = record { block = 1; value = none; log = [] }

abbrev history : List (Call × Option ℕ)
history = (do_something 7, some 4) ∷ (do_something 9, none) ∷ (cause_error, some 5) ∷ []

get-dispatch_all-increments_example :
    (dispatch_all frame
      (history ++ ((do_something 4294967294, some 1) ∷ increments frame 3 (some 2)))
      empty_chain).value
    ≡ some 4294967295
get-dispatch_all-increments_example =
    get-dispatch_all-increments frame frame-IsLawful history 4294967294 3 (some 1) (some 2)
      empty_chain refl refl (ground arith)

view-dispatch_all_example :
    view frame (dispatch_all frame history empty_chain)
    ≡ record { value = some 8; log = something_stored 7 4 ∷ [] }
unfolding run step
view-dispatch_all_example =
    view-dispatch_all frame frame-IsLawful history empty_chain (omega arith)
      (omega arith, (omega arith, (tt, tt))) (λ n e. absurd (ground arith))

events-dispatch_all_example :
    (dispatch_all frame history empty_chain).log ≡ something_stored 7 4 ∷ []
events-dispatch_all_example =
    events-dispatch_all frame frame-IsLawful history empty_chain (omega arith)

substrate_weight_parts_example :
    ((substrate_weight weights rocks_db).do_something.0 ≡ 109000000)
    × ((substrate_weight weights rocks_db).do_something.1 ≡ 0)
    × ((substrate_weight weights rocks_db).cause_error.0 ≡ 131000000)
    × ((substrate_weight weights rocks_db).cause_error.1 ≡ 1489)
    × (unit_weight weights rocks_db ≡ substrate_weight weights rocks_db)
substrate_weight_parts_example =
    substrate_weight_parts weights weights-IsLawful {read = 25000000} {write = 100000000} rocks_db
      rocks_db-Costs
