-- ===== src/Chaincode/Contract.antt =====
-- The methods of `SmartContract` in interoperability_fabric.go.
use substrate_fabric_integra.Base.{
  ⊤, String, Bool, true, false, Option, none, some, List, [], ◌∷◌, if◌then◌else◌,
}
use substrate_fabric_integra.Base.Effect.{Result, ok, err, Action, pure, raise, ◌>>=◌, ◌>>◌}
use substrate_fabric_integra.Chaincode.Stub.{Asset, Stub}

-- The errors that the methods make with `fmt.Errorf`, and those that they hand on.
pub data ContractError (E : Type 0) : Type 0 where
  already_exists : String → ContractError E
  does_not_exist : String → ContractError E
  read_failed : E → ContractError E
  handed_on : E → ContractError E

module _ (S : Stub) where
  open S use {Int, Bytes, Error, State}

  abbrev pub Method : Type 0 → Type 0
  Method A = Action State (ContractError Error) A

  -- A value or an error of the stub, with the error made another.
  abbrev try : {A : Type 0} → (Error → ContractError Error) → Result Error A → Method A
  try f (ok a) s = (ok a, s)
  try f (err e) s = (err (f e), s)

  -- A write of the stub.
  abbrev store : (State → Result Error State) → Method ⊤
  store f s = elim (f s) [ ok t ↦ (ok tt, t) | err e ↦ (err (handed_on e), s) ]

  abbrev fetch : String → Method (Option Bytes)
  fetch id s = try read_failed (S.get_state id s) s

  abbrev is_present : Option Bytes → Bool
  is_present none = false
  is_present (some _) = true

  unfoldable pub asset_exists : String → Method Bool
  asset_exists id = do asset_json ← fetch id; pure (is_present asset_json)

  abbrev decode : String → Option Bytes → Method (Asset Int)
  decode id none = raise (does_not_exist id)
  decode id (some asset_json) = try handed_on (S.unmarshal asset_json)

  unfoldable pub read_asset : String → Method (Asset Int)
  read_asset id = do asset_json ← fetch id; decode id asset_json

  -- `json.Marshal` and `PutState`
  abbrev pub write : String → Asset Int → Method ⊤
  write id asset = do
    asset_json ← try handed_on (S.marshal asset)
    store (S.put_state id asset_json)

  -- the `Asset` literal of `CreateAsset` and `UpdateAsset`
  abbrev pub asset_of : String → String → Int → String → Int → Asset Int
  asset_of id color size owner value = record {
    appraised_value = value;
    color = color;
    id = id;
    owner = owner;
    size = size;
  }

  -- the end of `CreateAsset`, when it knows whether the id is in use
  abbrev create_if : Bool → Asset Int → Method ⊤
  create_if exists asset = if exists then raise (already_exists asset.id) else write asset.id asset

  -- the end of `UpdateAsset`
  abbrev update_if : Bool → Asset Int → Method ⊤
  update_if exists asset = if exists then write asset.id asset else raise (does_not_exist asset.id)

  -- the end of `DeleteAsset`
  abbrev delete_if : Bool → String → Method ⊤
  delete_if exists id = if exists then store (S.del_state id) else raise (does_not_exist id)

  -- The end of `TransferAsset`. With `flag` false the source's branch is empty and returns nothing:
  -- `none`.
  abbrev transfer_if : Bool → String → String → Asset Int → Method (Option String)
  transfer_if true id new_owner asset =
      write id (record asset { owner = new_owner }) >> pure (some asset.owner)
  transfer_if false id new_owner asset = pure none

  unfoldable pub create_asset : String → String → Int → String → Int → Method ⊤
  unfolding asset_exists
  create_asset id color size owner value =
      asset_exists id >>= λ exists. create_if exists (asset_of id color size owner value)

  unfoldable pub update_asset : String → String → Int → String → Int → Method ⊤
  unfolding asset_exists
  update_asset id color size owner value =
      asset_exists id >>= λ exists. update_if exists (asset_of id color size owner value)

  unfoldable pub delete_asset : String → Method ⊤
  unfolding asset_exists
  delete_asset id = do exists ← asset_exists id; delete_if exists id

  unfoldable pub transfer_asset : String → String → Bool → Method (Option String)
  unfolding read_asset
  transfer_asset id new_owner flag = do asset ← read_asset id; transfer_if flag id new_owner asset

  -- the loop over the iterator
  unfoldable pub collect : List (Result Error Bytes) → Result Error (List (Asset Int))
  collect [] = ok []
  collect (err e ∷ rest) = err e
  collect (ok value ∷ rest) =
      let more = collect rest in
      elim (S.unmarshal value) [
        | ok asset ↦ elim more [ ok assets ↦ ok (asset ∷ assets) | err e ↦ err e ]
        | err e ↦ err e
      ]

  unfoldable pub get_all_assets : Method (List (Asset Int))
  unfolding collect
  get_all_assets s =
      (do results ← try handed_on (S.get_state_by_range s); try handed_on (collect results)) s
