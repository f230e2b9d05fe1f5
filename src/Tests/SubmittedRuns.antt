-- ===== src/Tests/SubmittedRuns.antt =====
-- Extrinsics that the node makes, in a block of the small runtime.
use substrate_fabric_integra.Base.{
  ℕ, suc, ◌≡◌, refl, some, List, [], ◌∷◌, zero, map, ap, sym, subst, ◌∙◌, ◌+◌, arith,
}
use substrate_fabric_integra.Base.Effect.{ok}
use substrate_fabric_integra.Pallet.Frame.{something_stored}
use substrate_fabric_integra.Pallet.Call.{Call, do_something, cause_error}
use substrate_fabric_integra.Pallet.Spec.{run, step}
use substrate_fabric_integra.Pallet.Laws.{Fits, view}
use substrate_fabric_integra.Runtime.Pallets.{template_module}
use substrate_fabric_integra.Runtime.Api.{runtime_api}
use substrate_fabric_integra.Pallet.Composition.{something_get}
use substrate_fabric_integra.Runtime.Blocks
use substrate_fabric_integra.Runtime.Blocks.{Phase, inside, genesis_block, begin}
use substrate_fabric_integra.Runtime.Applied.{api_apply_all}
use substrate_fabric_integra.Benchmarking.Extrinsic.{UncheckedExtrinsic}
use substrate_fabric_integra.Benchmarking.Submitted.{create_all, Intake}
use substrate_fabric_integra.Tests.RuntimeRuns.{
  others, limits, limits-IsLawful, payment, payment-IsLawful,
}
use substrate_fabric_integra.Tests.Toys.{weights, weights-IsLawful, rocks_db, rocks_db-Costs}
use substrate_fabric_integra.Runtime.Limits.{block_weights}
use substrate_fabric_integra.Benchmarking.Budget.{Meter, IsLawfulMeter}
use substrate_fabric_integra.Benchmarking.Taken.{taken-create_all}
use substrate_fabric_integra.Tests.Composition.{frame, handlers}
use substrate_fabric_integra.Tests.BlockRuns.{
  frame-IsLawful, handlers-IsIsolated, handlers-IsSudo, start,
}
use substrate_fabric_integra.Tests.ClientRuns.{toy_host, toy_chain, toy_chain-IsLawful, toy_client}
use substrate_fabric_integra.Tests.CountedRuntime.{
  counted, charged, applied, frame_of, seen, Dispatched, Fits-fits, applied-Dispatches,
  counted-IsLawful,
}

-- A call as a number of the node's.
abbrev number_of : Call → ℕ
number_of (do_something n) = suc n
number_of cause_error = 0

abbrev call_of : ℕ → Call
call_of zero = cause_error
call_of (suc n) = do_something n

call_of-number_of : (c : Call) → call_of (number_of c) ≡ c
call_of-number_of (do_something n) = refl
call_of-number_of cause_error = refl

abbrev intake : Intake frame others handlers counted frame_of seen toy_host
intake = record {
  to_extrinsic = λ xt. (call_of xt.call, xt.address);
  of_account = λ a. a;
  signed = some;
  template_call = number_of;
  known = λ s. record toy_chain { nonce = s.nonces };
}

abbrev meter : Meter counted toy_host
meter = record {
  time_used = λ s. s.time;
  proof_used = λ s. s.proof;
  bytes_used = λ s. s.bytes;
  balance = λ a s. 1000000000000;
  length_of = λ xt. 120;
  longest = 120;
}

to_extrinsic-eq :
    (c : Call) (a : ℕ) (xt : UncheckedExtrinsic toy_host)
    → xt.call ≡ number_of c
    → xt.address ≡ a
    → intake.to_extrinsic xt ≡ (c, a)
to_extrinsic-eq c a xt called own i = ((ap call_of called ∙ call_of-number_of c) i, own i)

-- What an extrinsic of the node does.
applied-charged :
    (c : Call) (a : ℕ) (xt : UncheckedExtrinsic toy_host) (s : counted.State)
    → xt.call ≡ number_of c
    → xt.address ≡ a
    → Fits c
    → applied (intake.to_extrinsic xt) s ≡ charged c a s
applied-charged c a xt s called own fit =
    ap (λ x. applied x s) (to_extrinsic-eq c a xt called own) ∙ rw (Fits-fits c fit) refl

meter-IsLawful :
    IsLawfulMeter frame others handlers counted frame_of seen toy_host intake weights limits payment
      rocks_db meter
meter-IsLawful = record {
  ensure_signed-signed = λ a. refl;
  known-IsLawful = λ s. record {
    verify-sign = toy_chain-IsLawful.verify-sign;
    birth-mortal = toy_chain-IsLawful.birth-mortal;
    kept = toy_chain-IsLawful.kept;
  };
  short = λ c xt called. omega arith;
  accepted = λ c a xt s called own untipped non_zero fit accepts affords.
      let done = applied-charged c a xt s called own fit in
      (
        subst (λ x. Dispatched x s template_module c (some a))
            (sym (to_extrinsic-eq c a xt called own)) (applied-Dispatches c a s (Fits-fits c fit)),
        ap (λ t. t.nonces a) done ∙ ground arith,
        refl,
        ap (λ t. t.time) done,
        ap (λ t. t.proof) done,
        ap (λ t. t.bytes) done,
        omega arith,
      );
}

abbrev unopened : counted.State
unopened = record { pallets = start; nonces = λ who. who + 7; time = 0; proof = 0; bytes = 0 }

abbrev opened : counted.State
opened = (frame_of.initialize_block 1 unopened).1

opened-Chain :
    Blocks.Chain frame frame-IsLawful others handlers handlers-IsIsolated handlers-IsSudo counted
      frame_of seen counted-IsLawful inside [] opened
unfolding runtime_api something_get counted-IsLawful
opened-Chain = begin [] 1 unopened (genesis_block [] _ refl) refl

taken-create_all_example :
    (xts : List (UncheckedExtrinsic toy_host)) × (create_all toy_host toy_client 2 (8 ∷ 0 ∷ []) 9
      ≡ ok xts)
    × (view frame (seen (api_apply_all counted frame_of (map intake.to_extrinsic xts) opened))
        ≡ record { value = some 8; log = something_stored 7 2 ∷ [] })
unfolding run step block_weights counted-IsLawful
taken-create_all_example =
    taken-create_all frame frame-IsLawful others handlers handlers-IsIsolated handlers-IsSudo
      counted frame_of seen counted-IsLawful toy_host intake weights weights-IsLawful limits
      limits-IsLawful payment payment-IsLawful rocks_db meter meter-IsLawful rocks_db-Costs
      toy_client 2 (do_something 7 ∷ cause_error ∷ []) [] opened (omega arith) (omega arith)
      opened-Chain (λ xt c called. tt)
      (record {
        same_version = refl;
        same_genesis = refl;
        same_block = refl;
        after = omega arith;
        before = omega arith;
        non_zero = refl;
      })
      (omega arith, (tt, tt))
      (record { time = omega arith; proof = omega arith; bytes = omega arith; funds = omega arith })
