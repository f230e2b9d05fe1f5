-- ===== src/Pallet/Composition/Laws.antt =====
-- That a runtime gives the template pallet of pallets/template/src/lib.rs a lawful FRAME.
use mathlib.Core.List.{append_assoc, append-nil}
use substrate_fabric_integra.Base.{
  ℕ, ◌≤◌, ◌==◌, ◌≡◌, refl, sym, ap, ◌∙◌, Bool, true, false, String, some, List, [], ◌∷◌, ◌++◌,
  if◌then◌else◌,
}
use substrate_fabric_integra.Base.Word.{u32_max}
use substrate_fabric_integra.Base.Codec.{Codec, IsCodec}
use substrate_fabric_integra.Pallet.Frame.{IsLawful, Event}
use substrate_fabric_integra.Pallet.Composition.{
  Composition, read_u32, stored_u32, Storage, own_events, something, something_get, something_put,
  deposit_event, composed,
}

module _ (C : Composition) (S : Storage C) where
  -- What is written is read back, and touches no other key, block number or event. Events are appended,
  -- but not in the genesis block, and touch no pallet's storage.
  pub record IsLawfulStorage : Type 0 where
    pub get-put_raw :
        (k : S.Key) (bytes : List ℕ) (s : S.State) → S.get_raw k (S.put_raw k bytes s) ≡ some bytes
    pub events-put_raw :
        (item : String) (bytes : List ℕ) (s : S.State)
        → let k = S.storage_prefix C.own_name item in
          S.runtime_events (S.put_raw k bytes s) ≡ S.runtime_events s
    pub block_number-put_raw :
        (item : String) (bytes : List ℕ) (s : S.State)
        → let k = S.storage_prefix C.own_name item in
          S.block_number (S.put_raw k bytes s) ≡ S.block_number s
    pub get-deposit :
        (item : String) (e : C.OverarchingEvent) (s : S.State)
        → let k = S.storage_prefix C.own_name item in S.get_raw k (S.deposit e s) ≡ S.get_raw k s
    pub block_number-deposit :
        (e : C.OverarchingEvent) (s : S.State) → S.block_number (S.deposit e s) ≡ S.block_number s
    pub events-deposit :
        (e : C.OverarchingEvent) (s : S.State)
        → S.runtime_events (S.deposit e s)
          ≡ (if S.block_number s == 0 then S.runtime_events s else S.runtime_events s ++ (e ∷ []))

  module _ (own : (e : Event C.AccountId) → C.own_event (C.into_event e) ≡ e ∷ []) where
    own_events-append :
        (es : List C.OverarchingEvent) (e : Event C.AccountId)
        → own_events C (es ++ (C.into_event e ∷ [])) ≡ own_events C es ++ (e ∷ [])
    own_events-append [] e = rw (own e, append-nil) refl
    own_events-append (d ∷ es) e =
        ap (λ rest. C.own_event d ++ rest) (own_events-append es e)
        ∙ sym (append_assoc (C.own_event d) _ _)

    own_events-if :
        (b : Bool) (es : List C.OverarchingEvent) (e : Event C.AccountId)
        → own_events C (if b then es else es ++ (C.into_event e ∷ []))
          ≡ (if b then own_events C es else own_events C es ++ (e ∷ []))
    own_events-if true es e = refl
    own_events-if false es e = own_events-append es e

    -- If the runtime's events hold the template pallet's, the storage keeps its laws and SCALE reads
    -- back a u32, then the runtime gives the template pallet a lawful FRAME: `Something` reads back
    -- what it wrote, and the events of the pallet are those that the runtime's events hold of it, in
    -- order.
    pub composed-IsLawful :
        IsLawfulStorage
        → (u32 : Codec ℕ) → IsCodec u32 (λ n. n ≤ u32_max)
        → IsLawful (composed C S u32)
    unfolding something_get something_put deposit_event
    composed-IsLawful L u32 LU = record {
      get-put = λ v s fits.
          ap (stored_u32 u32) (L.get-put_raw (something C S u32) (u32.encode v) s)
          ∙ ap (λ bytes. read_u32 (u32.decode bytes)) (sym (append-nil (u32.encode v)))
          ∙ ap read_u32 (LU.decode-encode v [] fits);
      events-put = λ v s. ap (own_events C) (L.events-put_raw "Something" (u32.encode v) s);
      block_number-put = λ v s. L.block_number-put_raw "Something" (u32.encode v) s;
      get-deposit_event = λ e s. ap (stored_u32 u32) (L.get-deposit "Something" (C.into_event e) s);
      block_number-deposit_event = λ e s. L.block_number-deposit (C.into_event e) s;
      events-deposit_event = λ e s.
          ap (own_events C) (L.events-deposit (C.into_event e) s)
          ∙ own_events-if (S.block_number s == 0) (S.runtime_events s) e;
    }
