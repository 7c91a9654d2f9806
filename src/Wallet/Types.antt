-- ===== src/Wallet/Types.antt =====
-- app/src/lib/types.ts: the shapes that only the wallet declares. Those of credentials, tokens, classes,
-- proofs and logs are the service's, in Types.
use finlabs_explore.Prelude.{ℕ, String, Bool, List}
use finlabs_explore.Envelope.Bodies.{AccountKeyInfo}
use finlabs_explore.Types.Account.{EntityType}

pub record AvailabilityResponse : Type 0 where
  pub available : Bool

pub record RegistrationSuccessResponse : Type 0 where
  pub access_token : String
  pub token_type : String
  pub expires_in : ℕ
  pub is_existing : Bool

pub record AccountProfile : Type 0 where
  pub did : String
  pub address : String
  pub name : String
  pub entity_type : EntityType

pub record AccountKeyList : Type 0 where
  pub keys : List AccountKeyInfo

pub record SignatureResponse : Type 0 where
  pub signature : String

pub record IssuerInfo : Type 0 where
  pub did : String
  pub name : String

pub record Revocation : Type 0 where
  pub id : String
  pub status : String

pub record MintAccepted : Type 0 where
  pub tx_id : String
  pub token_id : String
  pub status : String
  pub message : String

pub record TransactAccepted : Type 0 where
  pub tx_id : String
  pub status : String
  pub message : String
