-- ===== src/Chaincode/Inventory.antt =====
-- That `GetAllAssets` of interoperability_fabric.go lists a ledger.
use mathlib.Core.List.{Memᴰ}
use mathlib.Core.List.Memᴰ
use substrate_fabric_integra.Base.{
  ℕ, ◌≤◌, ◌≡◌, ◌≢◌, ◌↔◌, Bool, false, length, refl, sym, ap, subst, ◌∙◌, String, Option, none, some,
  List, [], ◌∷◌, map, arith,
}
use substrate_fabric_integra.Base.Effect.{ok}
use substrate_fabric_integra.Chaincode.Stub.{Asset, Stub}
use substrate_fabric_integra.Chaincode.Contract.{get_all_assets}
use substrate_fabric_integra.Chaincode.Ledger.{Ledger}
use substrate_fabric_integra.Chaincode.Refinement.{Holds, Represents}
use substrate_fabric_integra.Chaincode.Listing.{entry, get_all_assets-eq-ok}

module _ (S : Stub) where
  -- The entries of a world state are the values that it holds, each under its key, but for composite
  -- keys and the empty text, which is no key. Where there are no more of them than a query may
  -- return, the iterator over all keys yields their values.
  pub record IsLawfulRange : Type 0 where
    pub total_query_limit : ℕ
    pub is_composite : String → Bool
    pub entries : S.State → List (String × S.Bytes)
    pub range :
        (s : S.State)
        → length (entries s) ≤ total_query_limit
        → S.get_state_by_range s ≡ ok (map (λ (_, value). ok value) (entries s))
    pub simple :
        (s : S.State) (k : String) (value : S.Bytes)
        → Memᴰ (k, value) (entries s)
        → (k ≢ "") × (is_composite k ≡ false) × (S.get_state k s ≡ ok (some value))
    pub listed :
        (s : S.State) (k : String) (value : S.Bytes)
        → k ≢ ""
        → is_composite k ≡ false
        → S.get_state k s ≡ ok (some value)
        → Memᴰ (k, value) (entries s)

  -- An entry with a certain asset under its key.
  abbrev Listed : Ledger S → List (String × S.Bytes) → Asset S.Int → Type 0
  Listed m es a = (k : String) × (value : S.Bytes) × Memᴰ (k, value) es × (m k ≡ some a)

  named_member :
      (m : Ledger S) (k : String) (value : S.Bytes) (es : List (String × S.Bytes)) (a : Asset S.Int)
      (assets : List (Asset S.Int))
      → m k ≡ some a
      → ((c : Asset S.Int) → Memᴰ c assets → Listed m es c)
      → (c : Asset S.Int) → Memᴰ c (a ∷ assets)
      → Listed m ((k, value) ∷ es) c
  named_member m k value es a assets held rest c (Memᴰ.head e) =
      (k, value, Memᴰ.head refl, held ∙ ap some (sym e))
  named_member m k value es a assets held rest c (Memᴰ.tail mem) =
      let (j, w, found, there) = rest c mem in (j, w, Memᴰ.tail found, there)

  member_named :
      (m : Ledger S) (k j : String) (value w : S.Bytes) (es : List (String × S.Bytes))
      (a c : Asset S.Int) (assets : List (Asset S.Int))
      → m k ≡ some a
      → (Listed m es c → Memᴰ c assets)
      → Memᴰ (j, w) ((k, value) ∷ es)
      → m j ≡ some c
      → Memᴰ c (a ∷ assets)
  member_named m k j value w es a c assets held rest (Memᴰ.head e) there =
      let same : some c ≡ some a = sym there ∙ ap (λ p. m p.0) e ∙ held in Memᴰ.head (ground arith)
  member_named m k j value w es a c assets held rest (Memᴰ.tail mem) there =
      Memᴰ.tail (rest (j, w, mem, there))

  -- Entries that all stand for assets are decoded to these.
  decoded :
      (m : Ledger S) (es : List (String × S.Bytes))
      → ((k : String) (value : S.Bytes)
          → Memᴰ (k, value) es
          → (a : Asset S.Int) × (m k ≡ some a) × (S.unmarshal value ≡ ok a))
      → (assets : List (Asset S.Int)) × (map (entry S) (map (λ (_, value). ok value) es)
          ≡ map ok assets)
        × ((c : Asset S.Int) → Memᴰ c assets ↔ Listed m es c)
  decoded m [] stands = (
    [],
    refl,
    λ c. (λ mem. absurd (Memᴰ.not-nil mem), λ (j, w, mem, there). absurd (Memᴰ.not-nil mem)),
  )
  decoded m ((k, value) ∷ es) stands =
      let (a, held, back) = stands k value (Memᴰ.head refl) in
      let (assets, same, iff) = decoded m es (λ j w mem. stands j w (Memᴰ.tail mem)) in
      (
        a ∷ assets,
        λ i. back i ∷ same i,
        λ c. (
          named_member m k value es a assets held (λ d. (iff d).0) c,
          λ (j, w, mem, there). member_named m k j value w es a c assets held (iff c).1 mem there,
        ),
      )

  -- What the world state holds under a key is the ledger's asset.
  held_value :
      (s : S.State) (m : Ledger S) (k : String) (value : S.Bytes) (held : Option (Asset S.Int))
      → S.get_state k s ≡ ok (some value)
      → Holds S s k held
      → (a : Asset S.Int) × (held ≡ some a) × (S.unmarshal value ≡ ok a)
  held_value s m k value none got h = absurd (ground arith)
  held_value s m k value (some a) got (b, at, back) = (a, refl, ground arith)

  -- If the iterator over the world state yields what it holds under simple keys as long as a query
  -- may return as much, then on a world state that holds no more and represents a ledger without
  -- composite IDs, the list of all assets is made, and holds just the assets that the ledger holds
  -- under some ID that is not empty.
  pub get_all_assets-Represents :
      (R : IsLawfulRange) (s : S.State) (m : Ledger S)
      → length (R.entries s) ≤ R.total_query_limit
      → ((k : String) (a : Asset S.Int) → m k ≡ some a → R.is_composite k ≡ false)
      → Represents S s m
      → (assets : List (Asset S.Int)) × ((get_all_assets S s).0 ≡ ok assets)
        × ((a : Asset S.Int) → Memᴰ a assets ↔ ((k : String) × (k ≢ "") × (m k ≡ some a)))
  get_all_assets-Represents R s m within plain h =
      let (assets, same, iff) = decoded m (R.entries s) (λ k value mem.
        let (keyed, _, got) = R.simple s k value mem in
        held_value s m k value (m k) got (h k keyed)) in
      (
        assets,
        (get_all_assets-eq-ok S s _ assets (R.range s within)).1 same,
        λ a. (
          λ mem.
              let (k, value, mem', there) = (iff a).0 mem in
              let (keyed, _, _) = R.simple s k value mem' in (k, keyed, there),
          λ (k, keyed, there).
              let (value, got, _) = subst (Holds S s k) there (h k keyed) in
              (iff a).1 (k, value, R.listed s k value keyed (plain k a there) got, there),
        ),
      )
