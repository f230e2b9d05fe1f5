-- ===== src/Runtime/Encoded.antt =====
-- What runtime/src/lib.rs does with calls that arrive as bytes, against the specification of the
-- template pallet.
use mathlib.Core.List.{append-nil}
use substrate_fabric_integra.Base.{
  ℕ, ◌≤◌, ◌≡◌, ◌≢◌, refl, sym, ap, ◌∙◌, some, List, [], ◌∷◌, map, All, arith,
}
use substrate_fabric_integra.Base.Word.{u32_max}
use substrate_fabric_integra.Pallet.Frame.{Frame, IsLawful}
use substrate_fabric_integra.Pallet.Spec.{run}
use substrate_fabric_integra.Pallet.Laws.{view, InRange, view-dispatch}
use substrate_fabric_integra.Pallet.History.{
  Extrinsics, signed_calls, dispatch-InRange, dispatch-block_number,
}
use substrate_fabric_integra.Runtime.Pallets.{
  RuntimePallet, system, timestamp, aura, grandpa, balances, transaction_payment, sudo,
  template_module,
}
use substrate_fabric_integra.Base.Codec.{Codec, IsCodec}
use substrate_fabric_integra.Runtime.Calls.{
  Others, CallsOf, RuntimeCall, ValidIn, OrdinaryIn, encode_runtime_call, decode_runtime_call,
  decode-encode_runtime_call,
}
use substrate_fabric_integra.Runtime.Routing.{
  Handlers, IsIsolated, dispatch_runtime_call, dispatch_decoded, dispatch_encoded_all, keep,
  template_calls,
}

module _ (F : Frame) (L : IsLawful F) (O : Others) (H : Handlers F O)
    (isolated : IsIsolated F O H) where
  -- A call that keeps the invariant of the template pallet, and does to its view what the specification
  -- does, whatever follows.
  abbrev pub Keeps : RuntimeCall O → F.Origin → (s t : F.State) → Type 0
  Keeps call origin s t =
      InRange F t
      × (F.block_number t ≡ F.block_number s)
      × ((rest : Extrinsics F)
          → run (signed_calls F (keep F O call origin rest)) (view F s)
            ≡ run (signed_calls F rest) (view F t))

  foreign_call :
      (p : RuntimePallet)
      → p ≢ sudo
      → p ≢ template_module
      → (c : O.CallOf p) (origin : F.Origin) (s : F.State) → O.Ordinary p c
      → InRange F s
      → InRange F (H p c origin s).1
        × (F.block_number (H p c origin s).1 ≡ F.block_number s)
        × ((rest : Extrinsics F)
            → run (signed_calls F rest) (view F s)
              ≡ run (signed_calls F rest) (view F (H p c origin s).1))
  foreign_call p other foreign c origin s plain h =
      let same = isolated.view_same p other foreign c origin s plain in
      (
        λ n e. h n (sym (ap (λ v. v.value) same) ∙ e),
        isolated.block_number_same p other foreign c origin s plain,
        λ rest. ap (run (signed_calls F rest)) (sym same),
      )

  pub keeps :
      (p : RuntimePallet) (c : CallsOf O p) (origin : F.Origin) (s : F.State)
      → p ≢ sudo
      → ValidIn O p c
      → OrdinaryIn O p c
      → F.block_number s ≢ 0
      → InRange F s
      → Keeps (p, c) origin s (dispatch_runtime_call F O H (p, c) origin s).1
  unfolding dispatch_runtime_call run
  keeps template_module c origin s other valid plain late h = (
    dispatch-InRange F L c origin s valid h,
    dispatch-block_number F L c origin s,
    λ rest. ap (run (signed_calls F rest)) (sym (view-dispatch F L c origin s late valid h).1),
  )
  keeps sudo c origin s other valid plain late h = absurd (other refl)
  keeps system c origin s other valid plain late h =
      foreign_call system other (ground arith) c origin s plain h
  keeps timestamp c origin s other valid plain late h =
      foreign_call timestamp other (ground arith) c origin s plain h
  keeps aura c origin s other valid plain late h =
      foreign_call aura other (ground arith) c origin s plain h
  keeps grandpa c origin s other valid plain late h =
      foreign_call grandpa other (ground arith) c origin s plain h
  keeps balances c origin s other valid plain late h =
      foreign_call balances other (ground arith) c origin s plain h
  keeps transaction_payment c origin s other valid plain late h =
      foreign_call transaction_payment other (ground arith) c origin s plain h

  module _ (u32 : Codec ℕ) (LU : IsCodec u32 (λ n. n ≤ u32_max))
      (codecs : (p : RuntimePallet) → IsCodec (O.codec p) (O.Valid p)) where
    pub read_back :
        (p : RuntimePallet) (c : CallsOf O p)
        → ValidIn O p c
        → decode_runtime_call O u32 (encode_runtime_call O u32 (p, c)) ≡ some ((p, c), [])
    read_back p c valid =
        ap (decode_runtime_call O u32) (sym (append-nil _))
        ∙ decode-encode_runtime_call O u32 LU codecs p c [] valid

    -- If the ordinary calls of FRAME's pallets but sudo leave the template pallet's storage and
    -- events alone and SCALE reads back valid values, then valid and ordinary calls of any pallets
    -- but sudo, none that writes raw storage, dispatched from their
    -- bytes after the genesis block and from a stored value within u32, all decode, and leave the
    -- stored value and the events that the specification leaves, run on the template pallet's calls
    -- among them.
    pub view-dispatch_encoded_all :
        (calls : List (RuntimeCall O × F.Origin)) (s : F.State)
        → F.block_number s ≢ 0
        → InRange F s
        → All (λ ((p, c), _). (p ≢ sudo) × ValidIn O p c × OrdinaryIn O p c) calls
        → (t : F.State) × (dispatch_encoded_all F O H u32
              (map (λ (call, origin). (encode_runtime_call O u32 call, origin)) calls)
              s
            ≡ some t)
          × (view F t ≡ run (signed_calls F (template_calls F O calls)) (view F s))
    unfolding dispatch_encoded_all dispatch_decoded run
    view-dispatch_encoded_all [] s late h valid = (s, refl, refl)
    view-dispatch_encoded_all (((p, c), origin) ∷ calls) s late h ((other, fits, plain), valid) =
        let next = (dispatch_runtime_call F O H (p, c) origin s).1 in
        let (range, number, kept) = keeps p c origin s other fits plain late h in
        let (t, done, viewed) = view-dispatch_encoded_all calls next (rw number late) range valid in
        (
          t,
          rw (read_back p c fits, dispatch_encoded_all) done,
          viewed ∙ sym (kept (template_calls F O calls)),
        )
