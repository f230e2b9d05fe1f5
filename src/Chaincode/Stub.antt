-- ===== src/Chaincode/Stub.antt =====
-- What Fabric and the JSON package give the chaincode of interoperability_fabric.go.
use substrate_fabric_integra.Base.{◌≡◌, String, Option, none, some, List, if◌then◌else◌}
use substrate_fabric_integra.Base.Texts.{str_eq}
use substrate_fabric_integra.Base.Effect.{Result, ok}

-- `type Asset struct`; Go's `int` by its value.
pub record Asset (Int : Type 0) : Type 0 where
  pub appraised_value : Int
  pub color : String
  pub id : String
  pub owner : String
  pub size : Int

pub record Stub : Type 1 where
  pub Int : Type 0
  pub Bytes : Type 0
  pub Error : Type 0
  -- the world state
  pub State : Type 0
  -- `GetState`, where a missing key is nil
  pub get_state : String → State → Result Error (Option Bytes)
  pub put_state : String → Bytes → State → Result Error State
  pub del_state : String → State → Result Error State
  -- `GetStateByRange("", "")`: the answers of the iterator's `Next`
  pub get_state_by_range : State → Result Error (List (Result Error Bytes))
  pub marshal : Asset Int → Result Error Bytes
  pub unmarshal : Bytes → Result Error (Asset Int)

-- What is written is read back, and a write or a deletion leaves the other keys alone. JSON that was
-- made from an asset gives that asset.
pub record IsLawful (S : Stub) : Type 0 where
  pub get-put :
      (k j : String) (b : S.Bytes) (s t : S.State)
      → S.put_state k b s ≡ ok t
      → S.get_state j t ≡ (if str_eq j k then ok (some b) else S.get_state j s)
  pub get-del :
      (k j : String) (s t : S.State)
      → S.del_state k s ≡ ok t
      → S.get_state j t ≡ (if str_eq j k then ok none else S.get_state j s)
  pub unmarshal-marshal :
      (a : Asset S.Int) (b : S.Bytes) → S.marshal a ≡ ok b → S.unmarshal b ≡ ok a
