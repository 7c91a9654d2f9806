-- ===== src/Types/Token.antt =====
-- standin-service/src/tokens.ts: token instances and the owner index.
use finlabs_explore.Prelude.{String, Bool, Option, List}
use finlabs_explore.Js.Dict.{Dict}
use finlabs_explore.Js.StrSet.{StrSet}
use finlabs_explore.Json.{Json, Fields}
use finlabs_explore.Types.Credential.{Vc, Identity}

pub record TokenFlags : Type 0 where
  pub transferable : Bool
  pub transactable : Bool
  pub locked : Bool
  pub revocable : Bool

pub record TokenMetadata : Type 0 where
  pub token_standard : String
  pub name : String
  pub symbol : Json
  pub decimals : Json
  pub fungibility : String
  pub token_class : String
  pub status : String
  pub flags : TokenFlags
  pub created_at : String
  pub updated_at : String

pub record TokenState : Type 0 where
  pub status : String
  pub effective_from : String
  pub total_supply : String
  pub circulating_supply : String
  pub state_commitment : Option String

-- `content` is the source's field `data`.
pub record TokenInstance : Type 0 where
  pub context : String
  pub kind : String
  pub id : String
  pub metadata : TokenMetadata
  pub content : Fields
  pub claims : Option (List Vc)
  pub identities : List Identity
  pub state : TokenState

pub record Tokens : Type 0 where
  pub by_id : Dict TokenInstance
  pub owner_to_ids : Dict StrSet

pub record MintInput : Type 0 where
  pub token_class : String
  pub owner_did : String
  pub initial_supply : String
  pub name : Option String
  pub content : Option Fields

pub data MintCode : Type 0 where
  class_not_found compliance_check_failed : MintCode

pub data MintResult : Type 0 where
  minted : TokenInstance → MintResult
  refused : MintCode → (message : String) → MintResult

pub record TransferInput : Type 0 where
  pub token_id : String
  pub from_did : String
  pub to_did : String

pub data TransferCode : Type 0 where
  token_not_found not_owner : TransferCode

pub data TransferResult : Type 0 where
  transferred : (tx_id : String) → TokenInstance → TransferResult
  rejected : TransferCode → (message : String) → TransferResult
