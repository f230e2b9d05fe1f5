-- ===== src/Runtime/Calls/Canonical.antt =====
-- That a `RuntimeCall` of runtime/src/lib.rs has only one form as bytes.
use substrate_fabric_integra.Base.{
  ℕ, ◌≡◌, refl, sym, ap, ◌∙◌, inl, inr, Option-cases, Option, none, some, List, [], ◌∷◌, ◌++◌,
  arith,
}
use substrate_fabric_integra.Base.Codec.{Codec}
use substrate_fabric_integra.Pallet.Call.{Call, call_index}
use substrate_fabric_integra.Runtime.Pallets.{
  RuntimePallet, system, timestamp, aura, grandpa, balances, transaction_payment, sudo,
  template_module, pallet_index, all_pallets, find_pallet, find_pallet-pallet_index,
}
use substrate_fabric_integra.Runtime.Calls.{
  call_codec, encode_call, decode_call, Others, RuntimeCall, codec_of, decode_in, wrap,
  encode_runtime_call, decode_runtime_call,
}

-- Bytes are read as a value only if they begin with its own.
pub record IsCanonical {A : Type 0} (c : Codec A) : Type 0 where
  pub encode-decode :
      (bytes rest : List ℕ) (a : A) → c.decode bytes ≡ some (a, rest) → bytes ≡ c.encode a ++ rest

call_codec-IsCanonical : (u32 : Codec ℕ) → IsCanonical u32 → IsCanonical (call_codec u32)
unfolding call_codec encode_call decode_call call_index
call_codec-IsCanonical u32 L = record { encode-decode = back }
  where
    back :
        (bytes rest : List ℕ) (c : Call)
        → decode_call u32 bytes ≡ some (c, rest)
        → bytes ≡ encode_call u32 c ++ rest
    back [] rest c h = ground arith
    back (index ∷ bytes) rest c h = grind (arith, L.encode-decode)

wrap-eq-some :
    {A B : Type 0} (f : A → B) (o : Option (A × List ℕ)) (b : B) (rest : List ℕ)
    → wrap f o ≡ some (b, rest)
    → (a : A) × (o ≡ some (a, rest)) × (b ≡ f a)
wrap-eq-some f none b rest h = absurd (ground arith)
wrap-eq-some f (some (a, left)) b rest h =
    let same : left ≡ rest = cc in let value : b ≡ f a = cc in (a, rw same refl, value)

module _ (O : Others) (u32 : Codec ℕ) where
  codec_of-IsCanonical :
      IsCanonical u32
      → ((p : RuntimePallet) → IsCanonical (O.codec p))
      → (p : RuntimePallet) → IsCanonical (codec_of O u32 p)
  unfolding codec_of
  codec_of-IsCanonical L others template_module = call_codec-IsCanonical u32 L
  codec_of-IsCanonical L others system = others system
  codec_of-IsCanonical L others timestamp = others timestamp
  codec_of-IsCanonical L others aura = others aura
  codec_of-IsCanonical L others grandpa = others grandpa
  codec_of-IsCanonical L others balances = others balances
  codec_of-IsCanonical L others transaction_payment = others transaction_payment
  codec_of-IsCanonical L others sudo = others sudo

  -- If SCALE's u32 and the other pallets' calls are read only from their own bytes, then so is a
  -- runtime call: bytes that are read as a call begin with the bytes of that call.
  pub encode-decode_runtime_call :
      IsCanonical u32
      → ((p : RuntimePallet) → IsCanonical (O.codec p))
      → (bytes rest : List ℕ) (call : RuntimeCall O)
      → decode_runtime_call O u32 bytes ≡ some (call, rest)
      → bytes ≡ encode_runtime_call O u32 call ++ rest
  unfolding decode_runtime_call encode_runtime_call
  encode-decode_runtime_call L others [] rest call h = ground arith
  encode-decode_runtime_call L others (index ∷ bytes) rest call h =
      elim (Option-cases (find_pallet index all_pallets)) [
        | inl nothing ↦
            let never : ◌≡◌ {A = Option (RuntimeCall O × List ℕ)} none (some (call, rest)) =
              ap (λ o. decode_in O u32 o bytes) (sym nothing) ∙ h in
            absurd (ground arith)
        | inr (p, found) ↦
            let (c, read, same) =
              wrap-eq-some (λ d. (p, d)) ((codec_of O u32 p).decode bytes) call rest
                (ap (λ o. decode_in O u32 o bytes) (sym found) ∙ h) in
            ap (λ n. n ∷ bytes) (sym ((find_pallet-pallet_index index p).0.0 found))
            ∙ ap (λ left. pallet_index p ∷ left)
                ((codec_of-IsCanonical L others p).encode-decode bytes rest c read)
            ∙ ap (λ d. encode_runtime_call O u32 d ++ rest) (sym same)
      ]
