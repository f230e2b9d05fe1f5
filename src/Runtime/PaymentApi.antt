-- ===== src/Runtime/PaymentApi.antt =====
-- `TransactionPaymentApi` and `TransactionPaymentCallApi` of runtime/src/lib.rs.
use substrate_fabric_integra.Base.{ℕ}
use substrate_fabric_integra.Runtime.ApiFrame.{RuntimeTypes, RuntimeFrame}

module _ (T : RuntimeTypes) where
  open T use {State, Extrinsic, RuntimeCall, Weight, DispatchInfo, FeeDetails}

  pub data PaymentRequest : Type 0 where
    query_info : Extrinsic → ℕ → PaymentRequest
    query_fee_details : Extrinsic → ℕ → PaymentRequest
    query_weight_to_fee : Weight → PaymentRequest
    query_length_to_fee : ℕ → PaymentRequest
    -- for a call in place of an extrinsic
    query_call_info : RuntimeCall → ℕ → PaymentRequest
    query_call_fee_details : RuntimeCall → ℕ → PaymentRequest
    query_call_weight_to_fee : Weight → PaymentRequest
    query_call_length_to_fee : ℕ → PaymentRequest

  abbrev pub PaymentResponse : PaymentRequest → Type 0
  PaymentResponse (query_info _ _) = DispatchInfo
  PaymentResponse (query_fee_details _ _) = FeeDetails
  PaymentResponse (query_weight_to_fee _) = ℕ
  PaymentResponse (query_length_to_fee _) = ℕ
  PaymentResponse (query_call_info _ _) = DispatchInfo
  PaymentResponse (query_call_fee_details _ _) = FeeDetails
  PaymentResponse (query_call_weight_to_fee _) = ℕ
  PaymentResponse (query_call_length_to_fee _) = ℕ

  module _ (F : RuntimeFrame T) where
    unfoldable pub payment_api : (request : PaymentRequest) → State → PaymentResponse request
    payment_api (query_info uxt len) s = F.query_info uxt len s
    payment_api (query_fee_details uxt len) s = F.query_fee_details uxt len s
    payment_api (query_weight_to_fee weight) s = F.weight_to_fee weight s
    payment_api (query_length_to_fee len) s = F.length_to_fee len s
    payment_api (query_call_info call len) s = F.query_call_info call len s
    payment_api (query_call_fee_details call len) s = F.query_call_fee_details call len s
    payment_api (query_call_weight_to_fee weight) s = F.weight_to_fee weight s
    payment_api (query_call_length_to_fee len) s = F.length_to_fee len s
