-- ===== src/Pallet/Spec.antt =====
-- What the pallet of pallets/template/src/lib.rs promises, with no FRAME in sight: a value that is
-- set by anybody who signs, a counter that stops at its bound, and a log of the values set.
use substrate_fabric_integra.Base.{
  ℕ, suc, ◌==◌, Option, none, some, List, [], ◌∷◌, ◌++◌, if◌then◌else◌,
}
use substrate_fabric_integra.Base.Word.{u32_max}
use substrate_fabric_integra.Pallet.Frame.{
  Event, something_stored, Error, none_value, storage_overflow,
}
use substrate_fabric_integra.Pallet.Call.{Call, do_something, cause_error}

pub record View (AccountId : Type 0) : Type 0 where
  pub value : Option ℕ
  pub log : List (Event AccountId)

-- How a call ends: with success, without a signature, or with an error of the pallet.
pub data Verdict : Type 0 where
  accepted unsigned : Verdict
  refused : Error → Verdict

module _ {AccountId : Type 0} where
  bump : Option ℕ → View AccountId → Verdict × View AccountId
  bump none v = (refused none_value, v)
  bump (some n) v =
      if n == u32_max
      then (refused storage_overflow, v)
      else (accepted, record v { value = some (suc n) })

  -- One call on the view, by the account that signed it if any did.
  unfoldable pub step : Call → Option AccountId → View AccountId → Verdict × View AccountId
  unfolding bump
  step _ none v = (unsigned, v)
  step (do_something n) (some who) v =
      (accepted, record { value = some n; log = v.log ++ (something_stored n who ∷ []) })
  step cause_error (some _) v = bump v.value v

  unfoldable pub run : List (Call × Option AccountId) → View AccountId → View AccountId
  run [] v = v
  run ((call, who) ∷ rest) v = run rest (step call who v).1
