-- ===== src/Tests/SudoRuns.antt =====
-- Calls of sudo among those of the runtime, run.
use substrate_fabric_integra.Base.{
  ℕ, ◌≡◌, ◌≢◌, refl, ap, Option, none, some, List, [], ◌∷◌, map, arith,
}
use substrate_fabric_integra.Base.Effect.{ok}
use substrate_fabric_integra.Pallet.Call.{do_something, cause_error, dispatch}
use substrate_fabric_integra.Pallet.Laws.{view}
use substrate_fabric_integra.Runtime.Pallets.{RuntimePallet, timestamp, sudo, template_module}
use substrate_fabric_integra.Runtime.Calls.{RuntimeCall, encode_runtime_call}
use substrate_fabric_integra.Runtime.Routing.{
  Handlers, IsIsolated, dispatch_runtime_call, dispatch_encoded_all,
}
use substrate_fabric_integra.Runtime.Sudo.{IsSudo, dispatch_encoded_all-Reaches}
use substrate_fabric_integra.Runtime.Reaches.{Reaches}
use substrate_fabric_integra.Tests.Toys.{Chain, frame, frame-IsLawful}
use substrate_fabric_integra.Tests.RuntimeRuns.{number_codec, number_codec-IsCodec, others, start}

-- Every call of sudo calls `cause_error` for account 9; all other calls do nothing.
abbrev handlers : Handlers frame others
handlers sudo c origin s = (ok tt, (dispatch frame cause_error (some 9) s).1)
handlers p c origin s = (ok tt, s)

view_same :
    (p : RuntimePallet)
    → p ≢ sudo
    → (c : ℕ) (origin : Option ℕ) (s : Chain) → (handlers p c origin s).1 ≡ s
view_same sudo other c origin s = absurd (other refl)
view_same p other c origin s = refl

handlers-IsIsolated : IsIsolated frame others handlers
handlers-IsIsolated = record {
  view_same = λ p other foreign c origin s plain. ap (view frame) (view_same p other c origin s);
  block_number_same =
      λ p other foreign c origin s plain. ap (λ t. t.block) (view_same p other c origin s);
}

handlers-IsSudo : IsSudo frame others handlers
unfolding dispatch_runtime_call
handlers-IsSudo = record {
  redispatched = λ c origin s valid.
      (some ((template_module, cause_error), some 9), (ground arith, (tt, tt), refl, refl));
}

abbrev calls : List (RuntimeCall others × Option ℕ)
calls =
    ((timestamp, 6000), none)
    ∷ ((template_module, do_something 7), some 4)
    ∷ ((sudo, 1), some 0)
    ∷ []

dispatch_encoded_all-Reaches_example :
    (t : Chain) × (dispatch_encoded_all frame others handlers number_codec
        (map (λ (call, origin). (encode_runtime_call others number_codec call, origin)) calls)
        start
      ≡ some t)
    × Reaches frame ((do_something 7, some 4) ∷ (cause_error, some 9) ∷ []) start t
unfolding handlers-IsSudo encode_runtime_call dispatch_encoded_all
dispatch_encoded_all-Reaches_example =
    dispatch_encoded_all-Reaches frame frame-IsLawful others handlers handlers-IsIsolated
      handlers-IsSudo number_codec number_codec-IsCodec (λ p. number_codec-IsCodec) calls start
      (ground arith) (λ n e. absurd (ground arith)) ((tt, tt), ((omega arith, tt), ((tt, tt), tt)))
