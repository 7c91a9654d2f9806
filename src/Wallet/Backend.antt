-- ===== src/Wallet/Backend.antt =====
-- What the wallet's screens use of `api` in app/src/lib/client.ts: an interface over a state, and the
-- service of standin-service/src behind it.
pub mod Service
use finlabs_explore.Prelude.{String, List}
use finlabs_explore.Types.Account.{NewAccount}
use finlabs_explore.Types.Credential.{CredentialToken, IssueInput, VerificationResult}
use finlabs_explore.Types.TokenClass.{TokenClass}
use finlabs_explore.Types.Token.{TokenInstance}
use finlabs_explore.Types.Transaction.{TransactionLog, ProofDetails}
use finlabs_explore.Handlers.Token.{MintPayload}
use finlabs_explore.Wallet.Types.{
  AvailabilityResponse, RegistrationSuccessResponse, AccountProfile, AccountKeyList,
  SignatureResponse, IssuerInfo, Revocation, MintAccepted, TransactAccepted,
}
use finlabs_explore.Wallet.Client.{Failure, Answer, answered, refused}

-- An `await`: the answer, and the state that the call left. A refusal keeps its effects.
abbrev pub Ask : Type 0 → Type 0 → Type 0
Ask σ T = σ → Answer T × σ

abbrev pub ask_on : {σ S T : Type 0} → Answer S → (S → Ask σ T) → Ask σ T
ask_on (answered a) f s = f a s
ask_on (refused failure) f s = (refused failure, s)

abbrev pub done : {σ T : Type 0} → T → Ask σ T
done a s = (answered a, s)

abbrev pub throw : {σ T : Type 0} → Failure → Ask σ T
throw failure s = (refused failure, s)

infixl 5 ◌>>=◌ ◌>>◌
unfoldable pub ◌>>=◌ : {σ S T : Type 0} → Ask σ S → (S → Ask σ T) → Ask σ T
◌>>=◌ m f s = let (r, s') = m s in ask_on r f s'

abbrev pub ◌>>◌ : {σ S T : Type 0} → Ask σ S → Ask σ T → Ask σ T
m >> k = m >>= λ _. k

abbrev pair_up : {S T : Type 0} → Answer S → Answer T → Answer (S × T)
pair_up (answered a) (answered b) = answered (a, b)
pair_up (answered a) (refused failure) = refused failure
pair_up (refused failure) o = refused failure

-- `Promise.all([m, n])`: both are asked, whatever the first one's answer; here in the order listed.
unfoldable pub both : {σ S T : Type 0} → Ask σ S → Ask σ T → Ask σ (S × T)
both m n s = let (a, s') = m s in let (b, s'') = n s' in (pair_up a b, s'')

-- `api`
pub record Backend (σ : Type 0) : Type 0 where
  pub check_availability : (address : String) → Ask σ AvailabilityResponse
  pub create_account : NewAccount → Ask σ RegistrationSuccessResponse
  pub get_account : (token : String) → Ask σ AccountProfile
  pub search_keys : (token : String) → Ask σ AccountKeyList
  pub sign : (key_reference hash : String) → Ask σ SignatureResponse
  pub get_issuer : Ask σ IssuerInfo
  pub issue_credential : IssueInput → Ask σ CredentialToken
  pub verify_credential : CredentialToken → Ask σ VerificationResult
  pub revoke_credential : (credential_id : String) → Ask σ Revocation
  pub get_token_class : (token_class : String) → Ask σ TokenClass
  pub mint_token : (token : String) → MintPayload → Ask σ MintAccepted
  pub get_token : (token token_id : String) → Ask σ TokenInstance
  pub search_tokens : (token : String) → Ask σ (List TokenInstance)
  pub transfer : (token token_id to : String) → Ask σ TransactAccepted
  pub get_transaction : (token tx_id : String) → Ask σ TransactionLog
  pub get_proof : (token tx_id : String) → Ask σ ProofDetails
