-- ===== src/Types/Credential.antt =====
-- standin-service/src/credentials.ts: verifiable credentials.
use finlabs_explore.Prelude.{String, Bool, Option, List}
use finlabs_explore.Json.{Fields}

pub record VcProof : Type 0 where
  pub kind : String
  pub created : String
  pub verification_method : String
  pub proof_purpose : String
  pub proof_value : String

pub record Vc : Type 0 where
  pub id : String
  pub contexts : List String
  pub kinds : List String
  pub issuer : String
  pub issuance_date : String
  pub valid_from : String
  pub valid_until : String
  pub credential_subject : Fields
  pub credential_status : Fields
  pub credential_schema : Fields
  pub proof : Option VcProof

-- `{ id, type }`, in credentials and in tokens.
pub record Identity : Type 0 where
  pub id : String
  pub kind : String

pub record CredentialState : Type 0 where
  pub status : String
  pub balance : String
  pub effective_from : String
  pub effective_until : String

pub record CredentialToken : Type 0 where
  pub context : String
  pub kind : String
  pub id : String
  pub metadata : Fields
  pub claims : List Vc
  pub identities : List Identity
  pub state : CredentialState

pub record IssueInput : Type 0 where
  pub holder_did : String
  pub credential_type : Option String
  pub verification_level : Option String
  pub subject : Option Fields

pub record Checks : Type 0 where
  pub schema_valid : Bool
  pub signature_valid : Bool
  pub not_revoked : Bool
  pub not_expired : Bool

pub record VerificationResult : Type 0 where
  pub valid : Bool
  pub checks : Checks
  pub issuer : String
  pub reason : Option String
