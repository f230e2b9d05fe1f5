-- ===== src/Runtime/Calls.antt =====
-- `RuntimeCall` of runtime/src/lib.rs and its bytes: the index of a pallet, and then the call of that
-- pallet. The codec of u32 and those of the other pallets' calls are SCALE's, so they are parameters.
pub mod Canonical
use substrate_fabric_integra.Base.{
  ℕ, ◌==◌, ◌≤◌, ◌≡◌, refl, ap, ◌∙◌, Option, none, some, List, [], ◌∷◌, ◌++◌, if◌then◌else◌,
}
use substrate_fabric_integra.Base.Word.{u32_max}
use substrate_fabric_integra.Base.Codec.{Codec, IsCodec}
use substrate_fabric_integra.Pallet.Laws.{Fits}
use substrate_fabric_integra.Pallet.Call.{Call, do_something, cause_error, call_index}
use substrate_fabric_integra.Runtime.Pallets.{
  RuntimePallet, system, timestamp, aura, grandpa, balances, transaction_payment, sudo,
  template_module, pallet_index, all_pallets, find_pallet, find_pallet-pallet_index,
}

-- A decoded part, wrapped.
abbrev wrap : {A B : Type 0} → (A → B) → Option (A × List ℕ) → Option (B × List ℕ)
wrap f none = none
wrap f (some (a, rest)) = some (f a, rest)

module _ (u32 : Codec ℕ) where
  encode_call : Call → List ℕ
  unfolding call_index
  encode_call (do_something n) = call_index (do_something n) ∷ u32.encode n
  encode_call cause_error = call_index cause_error ∷ []

  decode_call : List ℕ → Option (Call × List ℕ)
  decode_call [] = none
  decode_call (index ∷ rest) =
      if index == 0
      then wrap do_something (u32.decode rest)
      else if index == 1
      then some (cause_error, rest)
      else none

  -- `Encode` and `Decode` of the pallet's `Call`, by `#[pallet::call_index]`
  unfoldable pub call_codec : Codec Call
  unfolding encode_call decode_call
  call_codec = record { encode = encode_call; decode = decode_call }

  pub call_codec-IsCodec : IsCodec u32 (λ n. n ≤ u32_max) → IsCodec call_codec Fits
  unfolding call_codec
  call_codec-IsCodec lawful = record { decode-encode = back }
    where
      back :
          (c : Call) (rest : List ℕ) → Fits c → decode_call (encode_call c ++ rest) ≡ some (c, rest)
      back (do_something n) rest fits = rw (lawful.decode-encode n rest fits) refl
      back cause_error rest fits = refl

-- The calls of the other pallets, with their codecs and the values that these read back. All calls
-- are ordinary but those by which the system pallet writes any key of the storage or changes the
-- code (`set_storage`, `kill_storage`, `kill_prefix`, `set_code` and their like, which take Root),
-- and the calls of sudo that dispatch one of these.
pub record Others : Type 1 where
  pub CallOf : RuntimePallet → Type 0
  pub codec : (p : RuntimePallet) → Codec (CallOf p)
  pub Valid : (p : RuntimePallet) → CallOf p → Type 0
  pub Ordinary : (p : RuntimePallet) → CallOf p → Type 0

module _ (O : Others) where
  -- The calls of a pallet of the runtime.
  abbrev pub CallsOf : RuntimePallet → Type 0
  CallsOf template_module = Call
  CallsOf system = O.CallOf system
  CallsOf timestamp = O.CallOf timestamp
  CallsOf aura = O.CallOf aura
  CallsOf grandpa = O.CallOf grandpa
  CallsOf balances = O.CallOf balances
  CallsOf transaction_payment = O.CallOf transaction_payment
  CallsOf sudo = O.CallOf sudo

  abbrev pub RuntimeCall : Type 0
  RuntimeCall = (p : RuntimePallet) × CallsOf p

  module _ (u32 : Codec ℕ) where
    codec_of : (p : RuntimePallet) → Codec (CallsOf p)
    codec_of template_module = call_codec u32
    codec_of system = O.codec system
    codec_of timestamp = O.codec timestamp
    codec_of aura = O.codec aura
    codec_of grandpa = O.codec grandpa
    codec_of balances = O.codec balances
    codec_of transaction_payment = O.codec transaction_payment
    codec_of sudo = O.codec sudo

    unfoldable pub encode_runtime_call : RuntimeCall → List ℕ
    unfolding pallet_index codec_of
    encode_runtime_call (p, c) = pallet_index p ∷ (codec_of p).encode c

    decode_in : Option RuntimePallet → List ℕ → Option (RuntimeCall × List ℕ)
    decode_in none rest = none
    decode_in (some p) rest = wrap (λ c. (p, c)) ((codec_of p).decode rest)

    unfoldable pub decode_runtime_call : List ℕ → Option (RuntimeCall × List ℕ)
    unfolding find_pallet decode_in codec_of
    decode_runtime_call [] = none
    decode_runtime_call (index ∷ rest) = decode_in (find_pallet index all_pallets) rest

  -- The values that are read back.
  abbrev pub ValidIn : (p : RuntimePallet) → CallsOf p → Type 0
  ValidIn template_module = Fits
  ValidIn system = O.Valid system
  ValidIn timestamp = O.Valid timestamp
  ValidIn aura = O.Valid aura
  ValidIn grandpa = O.Valid grandpa
  ValidIn balances = O.Valid balances
  ValidIn transaction_payment = O.Valid transaction_payment
  ValidIn sudo = O.Valid sudo

  abbrev pub OrdinaryIn : (p : RuntimePallet) → CallsOf p → Type 0
  OrdinaryIn template_module c = Unit
  OrdinaryIn system c = O.Ordinary system c
  OrdinaryIn timestamp c = O.Ordinary timestamp c
  OrdinaryIn aura c = O.Ordinary aura c
  OrdinaryIn grandpa c = O.Ordinary grandpa c
  OrdinaryIn balances c = O.Ordinary balances c
  OrdinaryIn transaction_payment c = O.Ordinary transaction_payment c
  OrdinaryIn sudo c = O.Ordinary sudo c

  codec_of-IsCodec :
      (u32 : Codec ℕ)
      → IsCodec u32 (λ n. n ≤ u32_max)
      → ((p : RuntimePallet) → IsCodec (O.codec p) (O.Valid p))
      → (p : RuntimePallet) → IsCodec (codec_of u32 p) (ValidIn p)
  unfolding codec_of
  codec_of-IsCodec u32 L others template_module = call_codec-IsCodec u32 L
  codec_of-IsCodec u32 L others system = others system
  codec_of-IsCodec u32 L others timestamp = others timestamp
  codec_of-IsCodec u32 L others aura = others aura
  codec_of-IsCodec u32 L others grandpa = others grandpa
  codec_of-IsCodec u32 L others balances = others balances
  codec_of-IsCodec u32 L others transaction_payment = others transaction_payment
  codec_of-IsCodec u32 L others sudo = others sudo

  -- If SCALE reads back a u32 and the valid calls of the other pallets, then a valid runtime call
  -- is read back from its bytes, whatever follows them: neither the pallets' indices nor the
  -- template pallet's call indices collide.
  pub decode-encode_runtime_call :
      (u32 : Codec ℕ)
      → IsCodec u32 (λ n. n ≤ u32_max)
      → ((p : RuntimePallet) → IsCodec (O.codec p) (O.Valid p))
      → (p : RuntimePallet) (c : CallsOf p) (rest : List ℕ) → ValidIn p c
      → decode_runtime_call u32 (encode_runtime_call u32 (p, c) ++ rest) ≡ some ((p, c), rest)
  unfolding encode_runtime_call decode_runtime_call
  decode-encode_runtime_call u32 L others p c rest valid =
      let found = (find_pallet-pallet_index (pallet_index p) p).0.1 refl in
      let read = (codec_of-IsCodec u32 L others p).decode-encode c rest valid in
      ap (λ o. decode_in u32 o ((codec_of u32 p).encode c ++ rest)) found
      ∙ ap (wrap (λ d. (p, d))) read
