-- ===== src/Tests/InventoryRuns.antt =====
-- The list of all assets over a world state with room for one.
use text.Mathlib.TextEquality.{eq_iff}
use mathlib.Core.List.{Memᴰ}
use mathlib.Core.List.Memᴰ
use substrate_fabric_integra.Base.{
  ℕ, ◌≡◌, ◌≢◌, false, ◌↔◌, refl, Bool-cases, ap, String, Option, none, some, List, [], ◌∷◌, map,
  inl, inr, if◌then◌else◌, arith,
}
use substrate_fabric_integra.Base.Texts.{str_eq, str_eq_cases}
use substrate_fabric_integra.Base.Effect.{ok, err}
use substrate_fabric_integra.Chaincode.Stub.{Asset, Stub}
use substrate_fabric_integra.Chaincode.Contract.{get_all_assets, asset_of}
use substrate_fabric_integra.Chaincode.Ledger.{Ledger}
use substrate_fabric_integra.Chaincode.Refinement.{Represents}
use substrate_fabric_integra.Chaincode.Inventory.{IsLawfulRange, get_all_assets-Represents}

abbrev slot : Option (Asset ℕ) → List (String × Asset ℕ)
slot none = []
slot (some asset) = ("asset1", asset) ∷ []

-- Only `asset1` is ever held.
abbrev stub : Stub
stub = record {
  Int = ℕ;
  Bytes = Asset ℕ;
  Error = String;
  State = Option (Asset ℕ);
  get_state = λ k s. ok (if str_eq k "asset1" then s else none);
  put_state = λ k b s. if str_eq k "asset1" then ok (some b) else err "no room";
  del_state = λ k s. ok (if str_eq k "asset1" then none else s);
  get_state_by_range = λ s. ok (map (λ (_, asset). ok asset) (slot s));
  marshal = ok;
  unmarshal = ok;
}

held-listed :
    (s : Option (Asset ℕ)) (k : String) (a : Asset ℕ)
    → stub.get_state k s ≡ ok (some a)
    → Memᴰ (k, a) (slot s)
held-listed none k a got = absurd (ground arith)
held-listed (some b) k a got = elim (str_eq_cases k "asset1") [
  | inl same ↦ let own : a ≡ b = ground arith in Memᴰ.head (λ i. (same i, own i))
  | inr other ↦ absurd (ground (arith, eq_iff k "asset1"))
]

listed-held :
    (s : Option (Asset ℕ)) (k : String) (a : Asset ℕ)
    → Memᴰ (k, a) (slot s)
    → (k ≢ "") × (false ≡ false) × (stub.get_state k s ≡ ok (some a))
listed-held none k a mem = absurd (Memᴰ.not-nil mem)
listed-held (some b) k a (Memᴰ.head e) =
    let same : k ≡ "asset1" = ap (λ p. p.0) e in
    let own : a ≡ b = ap (λ p. p.1) e in
    (
      λ blank. absurd (ground (arith, eq_iff "asset1" "", same, blank)),
      refl,
      ground (arith, eq_iff k "asset1"),
    )
listed-held (some b) k a (Memᴰ.tail mem) = absurd (Memᴰ.not-nil mem)

stub-IsLawfulRange : IsLawfulRange stub
stub-IsLawfulRange = record {
  entries = slot;
  total_query_limit = 100000;
  is_composite = λ k. false;
  range = λ s within. refl;
  simple = listed-held;
  listed = λ s k a keyed plain. held-listed s k a;
}

abbrev blue : Asset ℕ
blue = asset_of stub "asset1" "blue" 5 "Tomoko" 300

abbrev ledger : Ledger stub
ledger k = if str_eq k "asset1" then some blue else none

blue-Represents : Represents stub (some blue) ledger
blue-Represents k named = elim (Bool-cases (str_eq k "asset1")) [
  | inl own ↦ rw own (blue, rw own refl, refl)
  | inr other ↦ rw other (rw other refl)
]

get_all_assets-Represents_example :
    (assets : List (Asset ℕ)) × ((get_all_assets stub (some blue)).0 ≡ ok assets)
    × ((a : Asset ℕ) → Memᴰ a assets ↔ ((k : String) × (k ≢ "") × (ledger k ≡ some a)))
unfolding stub-IsLawfulRange
get_all_assets-Represents_example =
    get_all_assets-Represents stub stub-IsLawfulRange (some blue) ledger (omega arith)
      (λ k a held. refl) blue-Represents
