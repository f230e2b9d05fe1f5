-- ===== src/Runtime/Pallets.antt =====
-- The pallets that runtime/src/lib.rs composes, and the index by which a call, an event or an error
-- of the runtime names its pallet.
use substrate_fabric_integra.Base.{
  ℕ, ◌<◌, ◌≡◌, ◌↔◌, Option, none, some, List, [], ◌∷◌, arith, ◌==◌, if◌then◌else◌,
}

pub data RuntimePallet : Type 0 where
  system timestamp aura grandpa balances transaction_payment sudo template_module : RuntimePallet

-- `#[runtime::pallet_index]`
unfoldable pub pallet_index : RuntimePallet → ℕ
pallet_index system = 0
pallet_index timestamp = 1
pallet_index aura = 2
pallet_index grandpa = 3
pallet_index balances = 4
pallet_index transaction_payment = 5
pallet_index sudo = 6
pallet_index template_module = 7

-- in the order of the source
abbrev pub all_pallets : List RuntimePallet
all_pallets =
    system ∷ timestamp ∷ aura ∷ grandpa ∷ balances ∷ transaction_payment ∷ sudo ∷ template_module
    ∷ []

-- the first of the pallets that carries an index
unfoldable pub find_pallet : ℕ → List RuntimePallet → Option RuntimePallet
unfolding pallet_index
find_pallet n [] = none
find_pallet n (p ∷ ps) = let rest = find_pallet n ps in if pallet_index p == n then some p else rest

-- The indices of the runtime are those below eight, one for each pallet: an index finds a pallet if
-- and only if the pallet carries it, and finds none if and only if it is eight or more.
pub find_pallet-pallet_index :
    (n : ℕ) (p : RuntimePallet)
    → ((find_pallet n all_pallets ≡ some p) ↔ (pallet_index p ≡ n))
      × ((find_pallet n all_pallets ≡ none) ↔ (7 < n))
unfolding find_pallet pallet_index
find_pallet-pallet_index n p = ground arith
