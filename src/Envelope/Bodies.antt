-- ===== src/Envelope/Bodies.antt =====
-- The `response` parts that the handlers send, one constructor for each shape.
use finlabs_explore.Prelude.{ℕ, String, Bool, List}
use finlabs_explore.Types.Account.{EntityType}
use finlabs_explore.Types.Credential.{CredentialToken, VerificationResult}
use finlabs_explore.Types.TokenClass.{TokenClass}
use finlabs_explore.Types.Token.{TokenInstance}
use finlabs_explore.Types.Transaction.{TransactionLog, TokenTransaction, ProofDetails}

pub record AccountKeyInfo : Type 0 where
  pub key_id : String
  pub public_key_multibase : String
  pub key_type : String
  pub purpose : List String
  pub status : String
  pub is_primary : Bool
  pub created_at : String

pub data Body : Type 0 where
  nothing : Body
  registration : (access_token token_type : String) (expires_in : ℕ) (is_existing : Bool) → Body
  availability : (available : Bool) → Body
  resolved : (address did : String) → Body
  profile : (did address name : String) → EntityType → Body
  key_list : List AccountKeyInfo → Body
  signature : String → Body
  public_key : (public_key_text address : String) → Body
  issuer_info : (did name : String) → Body
  issued : CredentialToken → Body
  verification : VerificationResult → Body
  revocation : (id status : String) → Body
  credential_list : List CredentialToken → Body
  class_body : TokenClass → Body
  mint_accepted : (tx_id token_id status message : String) → Body
  token_body : TokenInstance → Body
  token_list : List TokenInstance → (total limit offset : ℕ) → Body
  transact_accepted : (tx_id status message : String) → Body
  transaction_body : TransactionLog → Body
  transaction_list : List TokenTransaction → (total limit offset : ℕ) → Body
  proof_body : ProofDetails → Body
