-- ===== src/Benchmarking/Budget.antt =====
-- What the extrinsics of node/src/benchmarking.rs take of a block and of their sender's balance, under
-- the block limits, the weights and the fees of runtime/src/lib.rs.
use substrate_fabric_integra.Base.{ℕ, suc, ◌+◌, ◌*◌, ◌≤◌, ◌≡◌, arith, false}
use substrate_fabric_integra.Base.Effect.{ok}
use substrate_fabric_integra.Pallet.Frame.{Frame}
use substrate_fabric_integra.Pallet.Call.{Call, do_something, cause_error}
use substrate_fabric_integra.Pallet.Laws.{Fits}
use substrate_fabric_integra.Pallet.Weights.{Weights, DbWeight, Costs, IsLawful as IsLawfulWeights}
use substrate_fabric_integra.Pallet.Weights.Bounds.{substrate_weight_parts}
use substrate_fabric_integra.Runtime.Params.{existential_deposit}
use substrate_fabric_integra.Runtime.Pallets.{template_module}
use substrate_fabric_integra.Runtime.Calls.{Others}
use substrate_fabric_integra.Runtime.Routing.{Handlers}
use substrate_fabric_integra.Runtime.ApiFrame.{RuntimeTypes, RuntimeFrame}
use substrate_fabric_integra.Runtime.Executive.{Dispatches}
use substrate_fabric_integra.Runtime.Limits.{
  FrameLimits, IsLawfulLimits, block_weights, block_length, call_weight, block_weights_lem,
  block_length_lem,
}
use substrate_fabric_integra.Runtime.Fees.{PaymentFrame, IsLawfulPayment, call_fee, call_fee_lem}
use substrate_fabric_integra.Benchmarking.Host.{Host}
use substrate_fabric_integra.Benchmarking.Extrinsic.{UncheckedExtrinsic}
use substrate_fabric_integra.Benchmarking.Accepted.{IsLawful, Verified}
use substrate_fabric_integra.Benchmarking.Submitted.{Intake, IsLawfulIntake}

module _ (W : Weights) (B : FrameLimits W) (read write : ℕ) where
  -- The most that a call takes, where the database takes so long to read and to write.
  abbrev pub dearest_time : ℕ
  dearest_time = W.ref_time (block_weights W B).base_extrinsic + (9000000 + read + write)

  abbrev pub dearest_proof : ℕ
  dearest_proof = W.proof_size (block_weights W B).base_extrinsic + 1489

module _ (T : RuntimeTypes) (N : Host) where
  -- What the normal extrinsics of the block have taken so far, the balances, and the length of an
  -- extrinsic in bytes, of which those of the template pallet have at most `longest`.
  pub record Meter : Type 0 where
    pub time_used : T.State → ℕ
    pub proof_used : T.State → ℕ
    pub bytes_used : T.State → ℕ
    pub balance : N.AccountId → T.State → ℕ
    pub length_of : UncheckedExtrinsic N → ℕ
    pub longest : ℕ

  module _ (W : Weights) (B : FrameLimits W) (read write : ℕ) where
    -- Room for so many calls more: a second and a half of time in all, the limit for proofs, 3932160
    -- bytes, and the fees.
    pub record Budget (M : Meter) (n : ℕ) (a : N.AccountId) (s : T.State) : Type 0 where
      pub time : M.time_used s + n * dearest_time W B read write ≤ 1500000000000
      pub proof :
          M.proof_used s + n * dearest_proof W B read write
          ≤ W.proof_size (block_weights W B).normal_max_total
      pub bytes : M.bytes_used s + n * M.longest ≤ 3932160
      pub funds :
          n * (dearest_time W B read write + M.longest) + existential_deposit ≤ M.balance a s

module _ (F : Frame) (O : Others) (H : Handlers F O) (T : RuntimeTypes) (X : RuntimeFrame T)
    (seen : T.State → F.State) (N : Host) (I : Intake F O H T X seen N) (W : Weights)
    (B : FrameLimits W) (P : PaymentFrame W) (db : DbWeight W) (M : Meter T N) where
  abbrev time_of : Call → ℕ
  time_of c = W.ref_time (block_weights W B).base_extrinsic + W.ref_time (call_weight W B db c)

  abbrev proof_of : Call → ℕ
  proof_of c = W.proof_size (block_weights W B).base_extrinsic + W.proof_size (call_weight W B db c)

  abbrev fee_of : Call → ℕ → ℕ
  fee_of c len = call_fee W P B db c len 0

  -- `CheckWeight` and `ChargeTransactionPayment`: the call is within the limits for one extrinsic, the
  -- block keeps its limits for weight and length, and the account can pay and live on.
  pub record Affords (c : Call) (a : N.AccountId) (len : ℕ) (s : T.State) : Type 0 where
    pub single_time :
        W.ref_time (call_weight W B db c) ≤ W.ref_time (block_weights W B).normal_max_extrinsic
    pub single_proof :
        W.proof_size (call_weight W B db c) ≤ W.proof_size (block_weights W B).normal_max_extrinsic
    pub time : M.time_used s + time_of c ≤ W.ref_time (block_weights W B).normal_max_total
    pub proof : M.proof_used s + proof_of c ≤ W.proof_size (block_weights W B).normal_max_total
    pub bytes : M.bytes_used s + len ≤ (block_length W B).normal
    pub funds : fee_of c len + existential_deposit ≤ M.balance a s

  -- An extrinsic of the template pallet without a tip, which is verified, has another signer than the
  -- zero account, and is affordable, dispatches its call with its signer for the origin. Its account's next nonce is
  -- then one more, nothing else that the extensions read of the chain changes within a block but
  -- what is left of the block and of the balances, and the block and the account are charged.
  pub record IsLawfulMeter : Type 0 where
    pub ensure_signed-signed : (a : F.AccountId) → F.ensure_signed (I.signed a) ≡ ok a
    pub known-IsLawful : (s : T.State) → IsLawful N (I.known s)
    pub short :
        (c : Call) (xt : UncheckedExtrinsic N)
        → xt.call ≡ I.template_call c
        → M.length_of xt ≤ M.longest
    pub accepted :
        (c : Call) (a : N.AccountId) (xt : UncheckedExtrinsic N) (s : T.State)
        → xt.call ≡ I.template_call c
        → xt.address ≡ a
        → xt.extra.charge_transaction_payment ≡ 0
        → (I.known s).is_zero a ≡ false
        → Fits c
        → Verified N (I.known s) xt
        → Affords c a (M.length_of xt) s
        → let t = (X.apply_extrinsic (I.to_extrinsic xt) s).1 in
          Dispatches F O H T X seen
            (I.to_extrinsic xt)
            s
            template_module
            c
            (I.signed (I.of_account a))
          × ((I.known t).nonce a ≡ suc ((I.known s).nonce a))
          × (I.known t ≡ record (I.known s) {
            nonce = (I.known t).nonce;
            has_room = (I.known t).has_room;
            can_pay = (I.known t).can_pay;
          })
          × (M.time_used t ≡ M.time_used s + time_of c)
          × (M.proof_used t ≡ M.proof_used s + proof_of c)
          × (M.bytes_used t ≡ M.bytes_used s + M.length_of xt)
          × (M.balance a s ≤ M.balance a t + fee_of c (M.length_of xt))

  module _ (LW : IsLawfulWeights W) (LB : IsLawfulLimits W B) (LP : IsLawfulPayment W P)
      {read write : ℕ} (costs : Costs W db read write) where
    call_weight-le :
        (c : Call)
        → (W.ref_time (call_weight W B db c) ≤ 9000000 + read + write)
          × (W.proof_size (call_weight W B db c) ≤ 1489)
    unfolding call_weight
    call_weight-le (do_something n) =
        let (time, proof, _, _, _) = substrate_weight_parts W LW db costs in
        (omega arith, omega arith)
    call_weight-le cause_error =
        let (_, _, time, proof, _) = substrate_weight_parts W LW db costs in
        (omega arith, omega arith)

    fee_of-le :
        (c : Call) (len : ℕ)
        → len ≤ M.longest
        → fee_of c len ≤ dearest_time W B read write + M.longest
    fee_of-le (do_something n) len short =
        omega (arith, (call_fee_lem W P B LW LP LB db costs n len 0).0)
    fee_of-le cause_error len short =
        omega (arith, (call_fee_lem W P B LW LP LB db costs 0 len 0).1)

    module _ (cheap : dearest_time W B read write ≤ 1000000000000)
        (proven : 1489 ≤ W.proof_size (block_weights W B).normal_max_extrinsic) where
      Budget-Affords :
          (n : ℕ) (c : Call) (a : N.AccountId) (len : ℕ) (s : T.State)
          → len ≤ M.longest
          → Budget T N W B read write M (suc n) a s
          → Affords c a len s
      Budget-Affords n c a len s short b =
          let (time, proof) = call_weight-le c in
          let (_, total, single) = block_weights_lem W B LW LB in
          let (normal, _) = block_length_lem W B LB in
          record {
            single_time = omega arith;
            single_proof = omega arith;
            time = omega (arith, b.time);
            proof = omega (arith, b.proof);
            bytes = omega (arith, b.bytes);
            funds = omega (arith, b.funds, fee_of-le c len short);
          }

      Budget-next :
          (n : ℕ) (c : Call) (a : N.AccountId) (len : ℕ) (s t : T.State)
          → len ≤ M.longest
          → M.time_used t ≡ M.time_used s + time_of c
          → M.proof_used t ≡ M.proof_used s + proof_of c
          → M.bytes_used t ≡ M.bytes_used s + len
          → M.balance a s ≤ M.balance a t + fee_of c len
          → Budget T N W B read write M (suc n) a s
          → Budget T N W B read write M n a t
      Budget-next n c a len s t short timed proved long paid b =
          let (time, proof) = call_weight-le c in
          record {
            time = omega (arith, b.time);
            proof = omega (arith, b.proof);
            bytes = omega (arith, b.bytes);
            funds = omega (arith, b.funds, fee_of-le c len short);
          }

      -- With lawful weights, limits, payment and database costs, and an intake that charges what the
      -- runtime configures, a budget is room: the intake keeps its laws.
      pub Budget-IsLawfulIntake :
          IsLawfulMeter → IsLawfulIntake F O H T X seen N I (Budget T N W B read write M)
      Budget-IsLawfulIntake LM = record {
        ensure_signed-signed = LM.ensure_signed-signed;
        known-IsLawful = LM.known-IsLawful;
        accepted = λ n c a xt s called own untipped non_zero fits verified b.
            let short = LM.short c xt called in
            let (dispatches, next, same, timed, proved, long, paid) =
              LM.accepted c a xt s called own untipped non_zero fits verified
                (Budget-Affords n c a (M.length_of xt) s short b) in
            (
              dispatches,
              next,
              same,
              Budget-next n c a (M.length_of xt) s _ short timed proved long paid b,
            );
      }
