-- ===== src/Runtime/Routing.antt =====
-- How the runtime of runtime/src/lib.rs dispatches calls that arrive as bytes: by the pallet's index to
-- the template pallet or to one of FRAME's, which are parameters.
use substrate_fabric_integra.Base.{ℕ, ⊤, ◌≡◌, ◌≢◌, Option, none, some, List, [], ◌∷◌}
use substrate_fabric_integra.Base.Effect.{Action}
use substrate_fabric_integra.Pallet.Frame.{Frame}
use substrate_fabric_integra.Pallet.Call.{dispatch}
use substrate_fabric_integra.Pallet.Laws.{view}
use substrate_fabric_integra.Pallet.History.{Extrinsics}
use substrate_fabric_integra.Runtime.Pallets.{
  RuntimePallet, system, timestamp, aura, grandpa, balances, transaction_payment, sudo,
  template_module,
}
use substrate_fabric_integra.Base.Codec.{Codec}
use substrate_fabric_integra.Runtime.Calls.{Others, RuntimeCall, decode_runtime_call}

module _ (F : Frame) (O : Others) where
  -- The dispatch of FRAME's pallets.
  abbrev pub Handlers : Type 0
  Handlers = (p : RuntimePallet) → O.CallOf p → F.Origin → Action F.State F.DispatchError ⊤

  -- An ordinary call of one of FRAME's pallets leaves the template pallet's storage and events and the
  -- block's number as they are. Only sudo need not: it dispatches other calls.
  pub record IsIsolated (H : Handlers) : Type 0 where
    pub view_same :
        (p : RuntimePallet)
        → p ≢ sudo
        → p ≢ template_module
        → (c : O.CallOf p) (origin : F.Origin) (s : F.State) → O.Ordinary p c
        → view F (H p c origin s).1 ≡ view F s
    pub block_number_same :
        (p : RuntimePallet)
        → p ≢ sudo
        → p ≢ template_module
        → (c : O.CallOf p) (origin : F.Origin) (s : F.State) → O.Ordinary p c
        → F.block_number (H p c origin s).1 ≡ F.block_number s

  module _ (H : Handlers) where
    unfoldable pub dispatch_runtime_call :
        RuntimeCall O → F.Origin → Action F.State F.DispatchError ⊤
    unfolding dispatch
    dispatch_runtime_call (system, c) origin = H system c origin
    dispatch_runtime_call (timestamp, c) origin = H timestamp c origin
    dispatch_runtime_call (aura, c) origin = H aura c origin
    dispatch_runtime_call (grandpa, c) origin = H grandpa c origin
    dispatch_runtime_call (balances, c) origin = H balances c origin
    dispatch_runtime_call (transaction_payment, c) origin = H transaction_payment c origin
    dispatch_runtime_call (sudo, c) origin = H sudo c origin
    dispatch_runtime_call (template_module, c) origin = dispatch F c origin

    -- Bytes are a call if nothing is left of them.
    unfoldable pub dispatch_decoded :
        Option (RuntimeCall O × List ℕ) → F.Origin → F.State → Option F.State
    unfolding dispatch_runtime_call
    dispatch_decoded none origin s = none
    dispatch_decoded (some (call, [])) origin s = some (dispatch_runtime_call call origin s).1
    dispatch_decoded (some (call, _ ∷ _)) origin s = none

    -- Calls as bytes, each with its origin; there is no state after bytes that are no call.
    unfoldable pub dispatch_encoded_all :
        Codec ℕ → List (List ℕ × F.Origin) → F.State → Option F.State
    unfolding dispatch_decoded
    dispatch_encoded_all u32 [] s = some s
    dispatch_encoded_all u32 ((bytes, origin) ∷ rest) s =
        elim (dispatch_decoded (decode_runtime_call O u32 bytes) origin s) [
          | none ↦ none
          | some t ↦ dispatch_encoded_all u32 rest t
        ]

  abbrev pub keep : RuntimeCall O → F.Origin → Extrinsics F → Extrinsics F
  keep (template_module, c) origin rest = (c, origin) ∷ rest
  keep _ origin rest = rest

  -- The calls of the template pallet among those of the runtime.
  abbrev pub template_calls : List (RuntimeCall O × F.Origin) → Extrinsics F
  template_calls [] = []
  template_calls ((call, origin) ∷ rest) = keep call origin (template_calls rest)
