-- ===== src/Tests/RuntimeRuns.antt =====
-- The runtime's calls, limits and fees, run.
use substrate_fabric_integra.Base.{
  ℕ, ◌+◌, ◌*◌, ◌-◌, ◌/◌, ◌≡◌, refl, min, Option, none, some, List, [], ◌∷◌, ◌++◌, map, arith,
}
use substrate_fabric_integra.Base.Word.{u128_max}
use substrate_fabric_integra.Base.Effect.{ok}
use substrate_fabric_integra.Pallet.Frame.{something_stored}
use substrate_fabric_integra.Pallet.Call.{do_something, cause_error}
use substrate_fabric_integra.Pallet.Spec.{run, step}
use substrate_fabric_integra.Pallet.Laws.{view}
use substrate_fabric_integra.Runtime.Pallets.{timestamp, template_module}
use substrate_fabric_integra.Base.Codec.{Codec, IsCodec}
use substrate_fabric_integra.Runtime.Calls.{
  call_codec, Others, RuntimeCall, encode_runtime_call, decode_runtime_call,
  decode-encode_runtime_call,
}
use substrate_fabric_integra.Runtime.Calls.Canonical.{IsCanonical, encode-decode_runtime_call}
use substrate_fabric_integra.Runtime.Routing.{Handlers, IsIsolated, dispatch_encoded_all}
use substrate_fabric_integra.Runtime.Encoded.{view-dispatch_encoded_all}
use substrate_fabric_integra.Runtime.Limits.{FrameLimits, IsLawfulLimits, block_weights}
use substrate_fabric_integra.Runtime.Fees.{
  capped, PaymentFrame, IsLawfulPayment, call_fee, call_fee_lem,
}
use substrate_fabric_integra.Tests.Toys.{
  Chain, frame, frame-IsLawful, weights, weights-IsLawful, rocks_db, rocks_db-Costs,
}

-- A number is one of a list, and the calls of the other pallets are numbers that do nothing.
abbrev pub number_codec : Codec ℕ
number_codec = record {
  encode = λ n. n ∷ [];
  decode = λ xs. elim xs [ [] ↦ none | x ∷ rest ↦ some (x, rest) ];
}

pub number_codec-IsCodec : {Valid : ℕ → Type 0} → IsCodec number_codec Valid
number_codec-IsCodec = record { decode-encode = λ n rest valid. refl }

abbrev pub others : Others
others = record {
  CallOf = λ _. ℕ;
  codec = λ _. number_codec;
  Valid = λ _ _. Unit;
  Ordinary = λ _ _. Unit;
}

abbrev handlers : Handlers frame others
handlers p c origin s = (ok tt, s)

handlers-IsIsolated : IsIsolated frame others handlers
handlers-IsIsolated = record {
  view_same = λ p other foreign c origin s plain. refl;
  block_number_same = λ p other foreign c origin s plain. refl;
}

decode-encode_runtime_call_example :
    decode_runtime_call others number_codec (7 ∷ 0 ∷ 42 ∷ 1 ∷ [])
    ≡ some ((template_module, do_something 42), 1 ∷ [])
unfolding encode_runtime_call call_codec
decode-encode_runtime_call_example =
    decode-encode_runtime_call others number_codec number_codec-IsCodec (λ p. number_codec-IsCodec)
      template_module (do_something 42) (1 ∷ []) (omega arith)

number_codec-IsCanonical : IsCanonical number_codec
number_codec-IsCanonical = record { encode-decode = back }
  where
    back :
        (bytes rest : List ℕ) (a : ℕ)
        → number_codec.decode bytes ≡ some (a, rest)
        → bytes ≡ a ∷ rest
    back [] rest a h = ground arith
    back (n ∷ bytes) rest a h = ground arith

encode-decode_runtime_call_example :
    (7 ∷ 0 ∷ 42 ∷ 1 ∷ [])
    ≡ encode_runtime_call others number_codec (template_module, do_something 42) ++ (1 ∷ [])
unfolding decode_runtime_call call_codec
encode-decode_runtime_call_example =
    encode-decode_runtime_call others number_codec number_codec-IsCanonical
      (λ p. number_codec-IsCanonical) (7 ∷ 0 ∷ 42 ∷ 1 ∷ []) (1 ∷ [])
      (template_module, do_something 42) refl

abbrev pub start : Chain
start = record { block = 1; value = none; log = [] }

abbrev calls : List (RuntimeCall others × Option ℕ)
calls =
    ((timestamp, 6000), none)
    ∷ ((template_module, do_something 7), some 4)
    ∷ ((template_module, cause_error), some 5)
    ∷ []

view-dispatch_encoded_all_example :
    (t : Chain) × (dispatch_encoded_all frame others handlers number_codec
        (map (λ (call, origin). (encode_runtime_call others number_codec call, origin)) calls)
        start
      ≡ some t)
    × (view frame t ≡ record { value = some 8; log = something_stored 7 4 ∷ [] })
unfolding run step
view-dispatch_encoded_all_example =
    view-dispatch_encoded_all frame frame-IsLawful others handlers handlers-IsIsolated number_codec
      number_codec-IsCodec (λ p. number_codec-IsCodec) calls start (ground arith)
      (λ n e. absurd (ground arith))
      ((ground arith, tt, tt), ((ground arith, omega arith, tt), ((ground arith, tt, tt), tt)))

-- The base weight of an extrinsic is a hundred microseconds.
abbrev pub limits : FrameLimits weights
limits = record {
  weight_ref_time_per_second = 1000000000000;
  with_sensible_defaults = λ w ratio. record {
    max_block = w;
    base_extrinsic = (100000000, 0);
    normal_max_extrinsic = (w.0 * ratio / 100 - w.0 / 10 - 100000000, w.1);
    normal_max_total = (w.0 * ratio / 100, w.1);
  };
  max_with_normal_ratio = λ size ratio. record { normal = size * ratio / 100; operational = size };
}

pub limits-IsLawful : IsLawfulLimits weights limits
limits-IsLawful = record {
  second = refl;
  max_block = λ w ratio. refl;
  max_total = λ w ratio part whole. ground arith;
  max_extrinsic = λ w ratio tenth whole. ground arith;
  lengths = λ size ratio part whole. (ground arith, refl);
}

abbrev pub payment : PaymentFrame weights
payment = record {
  Multiplier = ℕ;
  one = 1;
  identity_fee = λ w. w.0;
  compute_fee = λ c l len w tip.
      min
        (c.weight_to_fee (capped weights l l.base_extrinsic)
          + c.length_to_fee (len, 0)
          + c.fee_multiplier * c.weight_to_fee (capped weights l w)
          + tip)
        u128_max;
}

pub payment-IsLawful : IsLawfulPayment weights payment
payment-IsLawful = record {
  times = λ m n. m * n;
  times_one = λ n. omega arith;
  identity = λ w. refl;
  inclusion = λ c l w len tip. refl;
}

call_fee_lem_example :
    (call_fee weights payment limits rocks_db (do_something 7) 120 3 ≡ 209000123)
    × (call_fee weights payment limits rocks_db cause_error 120 3 ≡ 231000123)
unfolding block_weights
call_fee_lem_example =
    call_fee_lem weights payment limits weights-IsLawful payment-IsLawful limits-IsLawful
      {read = 25000000} {write = 100000000} rocks_db rocks_db-Costs 7 120 3
