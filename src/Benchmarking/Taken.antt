-- ===== src/Benchmarking/Taken.antt =====
-- A block of the chain of runtime/src/lib.rs takes as many extrinsics of node/src/benchmarking.rs as
-- its limits and the sender's balance allow.
use substrate_fabric_integra.Base.{ℕ, ◌≤◌, ◌≡◌, All, List, map, length}
use substrate_fabric_integra.Base.Effect.{ok}
use substrate_fabric_integra.Pallet.Frame.{Frame, IsLawful}
use substrate_fabric_integra.Pallet.Call.{Call}
use substrate_fabric_integra.Pallet.Spec.{run}
use substrate_fabric_integra.Pallet.Laws.{Fits, view}
use substrate_fabric_integra.Pallet.History.{Extrinsics}
use substrate_fabric_integra.Pallet.Weights.{Weights, DbWeight, Costs, IsLawful as IsLawfulWeights}
use substrate_fabric_integra.Runtime.Calls.{Others}
use substrate_fabric_integra.Runtime.Routing.{Handlers, IsIsolated}
use substrate_fabric_integra.Runtime.Sudo.{IsSudo}
use substrate_fabric_integra.Runtime.ApiFrame.{RuntimeTypes, RuntimeFrame}
use substrate_fabric_integra.Runtime.Executive.{IsLawfulExecutive}
use substrate_fabric_integra.Runtime.Blocks.{Chain, inside}
use substrate_fabric_integra.Runtime.Applied.{api_apply_all}
use substrate_fabric_integra.Runtime.Limits.{FrameLimits, IsLawfulLimits, block_weights}
use substrate_fabric_integra.Runtime.Fees.{PaymentFrame, IsLawfulPayment}
use substrate_fabric_integra.Benchmarking.Host.{Host, Client}
use substrate_fabric_integra.Benchmarking.Extrinsic.{UncheckedExtrinsic}
use substrate_fabric_integra.Benchmarking.Submitted.{
  create_all, Intake, Follows, signed_by, api_apply_all-create_all,
}
use substrate_fabric_integra.Benchmarking.Budget.{
  Meter, IsLawfulMeter, dearest_time, Budget, Budget-IsLawfulIntake,
}

module _ (F : Frame) (L : IsLawful F) (O : Others) (H : Handlers F O) (isolated : IsIsolated F O H)
    (S : IsSudo F O H) (T : RuntimeTypes) (X : RuntimeFrame T) (seen : T.State → F.State)
    (E : IsLawfulExecutive F O H T X seen) (N : Host) (I : Intake F O H T X seen N) (W : Weights)
    (LW : IsLawfulWeights W) (B : FrameLimits W) (LB : IsLawfulLimits W B) (P : PaymentFrame W)
    (LP : IsLawfulPayment W P) (db : DbWeight W) (M : Meter T N)
    (LM : IsLawfulMeter F O H T X seen N I W B P db M) {read write : ℕ}
    (costs : Costs W db read write) where
  pub taken-create_all :
      (client : Client N) (sender : N.Pair) (cs : List Call) (calls : Extrinsics F) (s : T.State)
      → dearest_time W B read write ≤ 1000000000000
      → 1489 ≤ W.proof_size (block_weights W B).normal_max_extrinsic
      → Chain F L O H isolated S T X seen E inside calls s
      → ((xt : UncheckedExtrinsic N) (c : Call)
          → xt.call ≡ I.template_call c
          → E.IsOrdinary (I.to_extrinsic xt))
      → Follows N client sender (I.known s)
      → All Fits cs
      → Budget T N W B read write M (length cs) (N.account sender) s
      → (xts : List (UncheckedExtrinsic N)) × (create_all N client sender
            (map I.template_call cs)
            ((I.known s).nonce (N.account sender))
          ≡ ok xts)
        × (view F (seen (api_apply_all T X (map I.to_extrinsic xts) s))
            ≡ run (signed_by I.of_account (N.account sender) cs) (view F (seen s)))
  taken-create_all client sender cs calls s cheap proven =
      api_apply_all-create_all F L O H isolated S T X seen E N I (Budget T N W B read write M)
        (Budget-IsLawfulIntake F O H T X seen N I W B P db M LW LB LP costs cheap proven LM) client
        sender cs calls s
