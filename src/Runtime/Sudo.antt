-- ===== src/Runtime/Sudo.antt =====
-- Calls that arrive as bytes at the runtime of runtime/src/lib.rs, those of sudo among them, which
-- dispatches other calls of the runtime.
use substrate_fabric_integra.Base.{
  ℕ, ◌≤◌, ◌≡◌, ◌≢◌, refl, sym, ap, ◌∙◌, Option, none, some, List, [], ◌∷◌, ◌++◌, map, All, arith,
}
use substrate_fabric_integra.Base.Word.{u32_max}
use substrate_fabric_integra.Pallet.Frame.{Frame, IsLawful}
use substrate_fabric_integra.Pallet.Spec.{run}
use substrate_fabric_integra.Pallet.Laws.{Fits, view, InRange}
use substrate_fabric_integra.Pallet.History.{Extrinsics}
use substrate_fabric_integra.Runtime.Pallets.{
  RuntimePallet, system, timestamp, aura, grandpa, balances, transaction_payment, sudo,
  template_module,
}
use substrate_fabric_integra.Base.Codec.{Codec, IsCodec}
use substrate_fabric_integra.Runtime.Calls.{
  Others, CallsOf, RuntimeCall, ValidIn, OrdinaryIn, encode_runtime_call,
}
use substrate_fabric_integra.Runtime.Routing.{
  Handlers, IsIsolated, dispatch_runtime_call, dispatch_decoded, dispatch_encoded_all, keep,
}
use substrate_fabric_integra.Runtime.Encoded.{keeps, read_back}
use substrate_fabric_integra.Runtime.Reaches.{Reaches, Reaches-trans}

-- A call with arguments that are read back, which writes no raw storage.
abbrev pub Harmless : (O : Others) (p : RuntimePallet) → CallsOf O p → Type 0
Harmless O p c = ValidIn O p c × OrdinaryIn O p c

module _ (F : Frame) (O : Others) (H : Handlers F O) where
  -- What sudo leaves: what was there, or what a valid, ordinary call of another pallet leaves.
  abbrev Redispatched : Option (RuntimeCall O × F.Origin) → (s t : F.State) → Type 0
  Redispatched none s t = (view F t ≡ view F s) × (F.block_number t ≡ F.block_number s)
  Redispatched (some ((p, c), signed)) s t =
      let u = (dispatch_runtime_call F O H (p, c) signed s).1 in
      (p ≢ sudo) × Harmless O p c × (view F t ≡ view F u) × (F.block_number t ≡ F.block_number u)

  -- A valid, ordinary call of sudo does nothing to the template pallet, or what its innermost call does,
  -- which is of another pallet.
  pub record IsSudo : Type 0 where
    pub redispatched :
        (c : O.CallOf sudo) (origin : F.Origin) (s : F.State)
        → Harmless O sudo c
        → (inner : Option (RuntimeCall O × F.Origin)) × Redispatched inner s (H sudo c origin s).1

module _ (F : Frame) (O : Others) where
  abbrev innermost : Option (RuntimeCall O × F.Origin) → Extrinsics F
  innermost none = []
  innermost (some (call, signed)) = keep F O call signed []

module _ (F : Frame) (O : Others) (H : Handlers F O) (S : IsSudo F O H) where
  -- The call of the template pallet that a valid call of the runtime comes to, if any: itself, or
  -- the innermost call of sudo.
  abbrev pub comes_to :
      (p : RuntimePallet) (c : CallsOf O p) → F.Origin → F.State → Harmless O p c → Extrinsics F
  comes_to sudo c origin s valid = innermost F O (S.redispatched c origin s valid).0
  comes_to template_module c origin s valid = (c, origin) ∷ []
  comes_to system c origin s valid = []
  comes_to timestamp c origin s valid = []
  comes_to aura c origin s valid = []
  comes_to grandpa c origin s valid = []
  comes_to balances c origin s valid = []
  comes_to transaction_payment c origin s valid = []

  -- Those that calls come to, dispatched one after the other.
  abbrev pub all_come_to :
      (calls : List (RuntimeCall O × F.Origin))
      → F.State
      → All (λ ((p, c), _). Harmless O p c) calls
      → Extrinsics F
  unfolding dispatch_runtime_call
  all_come_to [] s _ = []
  all_come_to (((p, c), origin) ∷ calls) s (valid, rest) =
      comes_to p c origin s valid
      ++ all_come_to calls (dispatch_runtime_call F O H (p, c) origin s).1 rest

module _ (F : Frame) (L : IsLawful F) (O : Others) (H : Handlers F O) (isolated : IsIsolated F O H)
    (S : IsSudo F O H) where
  keep-Fits :
      (p : RuntimePallet) (c : CallsOf O p) (origin : F.Origin)
      → Harmless O p c
      → All (λ (call, _). Fits call) (keep F O (p, c) origin [])
  keep-Fits template_module c origin valid = (valid.0, tt)
  keep-Fits system c origin valid = tt
  keep-Fits timestamp c origin valid = tt
  keep-Fits aura c origin valid = tt
  keep-Fits grandpa c origin valid = tt
  keep-Fits balances c origin valid = tt
  keep-Fits transaction_payment c origin valid = tt
  keep-Fits sudo c origin valid = tt

  Reaches-other :
      (p : RuntimePallet) (c : CallsOf O p) (origin : F.Origin) (s : F.State)
      → p ≢ sudo
      → Harmless O p c
      → F.block_number s ≢ 0
      → InRange F s
      → Reaches F (keep F O (p, c) origin []) s (dispatch_runtime_call F O H (p, c) origin s).1
  unfolding run
  Reaches-other p c origin s other valid late h =
      let (range, number, viewed) =
        keeps F L O H isolated p c origin s other valid.0 valid.1 late h in
      record {
        fit = keep-Fits p c origin valid;
        range = range;
        block_number = number;
        viewed = sym (viewed []);
      }

  -- A state that looks as one that is reached is reached.
  looks_reached :
      {calls : Extrinsics F} {s t u : F.State}
      → Reaches F calls s u
      → view F t ≡ view F u
      → F.block_number t ≡ F.block_number u
      → Reaches F calls s t
  looks_reached r same number = record {
    fit = r.fit;
    range = λ n e. r.range n (sym (ap (λ v. v.value) same) ∙ e);
    block_number = number ∙ r.block_number;
    viewed = same ∙ r.viewed;
  }

  Reaches-itself : (s : F.State) → InRange F s → Reaches F [] s s
  unfolding run
  Reaches-itself s h = record { fit = tt; range = h; block_number = refl; viewed = refl }

  Reaches-Redispatched :
      (inner : Option (RuntimeCall O × F.Origin)) (s t : F.State)
      → F.block_number s ≢ 0
      → InRange F s
      → Redispatched F O H inner s t
      → Reaches F (innermost F O inner) s t
  Reaches-Redispatched none s t late h (same, number) =
      looks_reached (Reaches-itself s h) same number
  Reaches-Redispatched (some ((p, c), signed)) s t late h (other, valid, same, number) =
      looks_reached (Reaches-other p c signed s other valid late h) same number

  pub dispatch_runtime_call-Reaches :
      (p : RuntimePallet) (c : CallsOf O p) (origin : F.Origin) (s : F.State)
      (valid : Harmless O p c)
      → F.block_number s ≢ 0
      → InRange F s
      → Reaches F
          (comes_to F O H S p c origin s valid)
          s
          (dispatch_runtime_call F O H (p, c) origin s).1
  unfolding dispatch_runtime_call
  dispatch_runtime_call-Reaches sudo c origin s valid late h =
      let (inner, done) = S.redispatched c origin s valid in
      Reaches-Redispatched inner s (H sudo c origin s).1 late h done
  dispatch_runtime_call-Reaches p c origin s valid late h =
      Reaches-other p c origin s (ground arith) valid late h

  module _ (u32 : Codec ℕ) (LU : IsCodec u32 (λ n. n ≤ u32_max))
      (codecs : (p : RuntimePallet) → IsCodec (O.codec p) (O.Valid p)) where
    -- If the ordinary calls of FRAME's pallets but sudo leave the template pallet's storage and
    -- events alone, those of sudo do nothing to them or what a valid, ordinary call of another
    -- pallet does, and SCALE reads back valid values, then valid and ordinary calls of any pallets,
    -- none that writes raw storage, not through sudo either, dispatched from their bytes after the genesis block
    -- and from a stored value within u32, all decode, and leave a stored value within u32 and
    -- events that the specification reaches by the calls of the template pallet that they come to,
    -- in order and with u32 arguments: their own and the innermost of sudo's.
    pub dispatch_encoded_all-Reaches :
        (calls : List (RuntimeCall O × F.Origin)) (s : F.State)
        → F.block_number s ≢ 0
        → InRange F s
        → (valid : All (λ ((p, c), _). Harmless O p c) calls)
        → (t : F.State) × (dispatch_encoded_all F O H u32
              (map (λ (call, origin). (encode_runtime_call O u32 call, origin)) calls)
              s
            ≡ some t)
          × Reaches F (all_come_to F O H S calls s valid) s t
    unfolding dispatch_encoded_all dispatch_decoded
    dispatch_encoded_all-Reaches [] s late h valid = (s, refl, Reaches-itself s h)
    dispatch_encoded_all-Reaches (((p, c), origin) ∷ calls) s late h (fits, valid) =
        let next = (dispatch_runtime_call F O H (p, c) origin s).1 in
        let first = dispatch_runtime_call-Reaches p c origin s fits late h in
        let (t, done, rest) =
          dispatch_encoded_all-Reaches calls next (rw first.block_number late) first.range valid in
        (
          t,
          rw (read_back F L O H isolated u32 LU codecs p c fits.0, dispatch_encoded_all) done,
          Reaches-trans F (comes_to F O H S p c origin s fits)
              (all_come_to F O H S calls next valid) first rest,
        )
