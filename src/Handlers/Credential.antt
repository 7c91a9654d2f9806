-- ===== src/Handlers/Credential.antt =====
-- standin-service/src/handlers.ts: the credential and token-class endpoints.
use mathlib.Core.Option
use finlabs_explore.Prelude.{
  Bool, String, not, ◌||◌, Option, none, some, ◌==◌, starts_with, if◌then◌else◌,
}
use finlabs_explore.Js.Dict.{get}
use finlabs_explore.Js.Text.{◌+ₛ◌}
use finlabs_explore.Types.Credential.{CredentialToken, IssueInput}
use finlabs_explore.Types.TokenClass.{RegisterTokenClassInput}
use finlabs_explore.Credentials.{
  issue_credential, verify_credential, revoke_credential, credentials_for_holder,
}
use finlabs_explore.Credentials.Signing.{issuer_did}
use finlabs_explore.TokenClasses.{get_token_class, token_class_exists, register_token_class}
use finlabs_explore.Envelope.{RequestContext, Response, respond, fail}
use finlabs_explore.Envelope.Bodies.{
  issuer_info, issued, verification, revocation, credential_list, class_body,
}
use finlabs_explore.World.{Exec, try_catch, gets, ◌>>=◌}
use finlabs_explore.World.Env.{Env}

-- `!payload?.tokenClass || !payload.tokenStandard || !payload.name`
unfoldable pub is_incomplete : RegisterTokenClassInput → Bool
is_incomplete payload =
    payload.token_class == "" || payload.token_standard == "" || payload.name == ""

module _ (e : Env) (ctx : Option RequestContext) where
  unfoldable pub credential_issuer : Exec Response
  credential_issuer =
      respond e ctx (issuer_info (issuer_did e) "Wayfinder KYC (stand-in issuer)") 200

  -- `!payload?.holderDid || !payload.holderDid.startsWith('did:')`
  unfoldable pub credential_issue : Option IssueInput → Exec Response
  credential_issue none = fail e ctx 400 "INVALID_HOLDER" "payload.holderDid must be a DID"
  credential_issue (some input) =
      if input.holder_did == "" || not (starts_with input.holder_did "did:")
      then fail e ctx 400 "INVALID_HOLDER" "payload.holderDid must be a DID"
      else try_catch
          (do credential ← issue_credential e input; respond e ctx (issued credential) 201)
          (λ message. fail e ctx 500 "ISSUE_FAILED" message)

  unfoldable pub credential_verify :
      (credential_id : Option String) → Option CredentialToken → Exec Response
  credential_verify credential_id (some credential) = do
    result ← verify_credential e credential
    respond e ctx (verification result) 200
  credential_verify credential_id none = do
    stored ←
        gets
          (λ w. Option.bind credential_id (λ id. if id == "" then none else get w.credentials id))
    elim stored [
      | none ↦ fail e ctx 404 "NOT_FOUND" "no credential given or found by id"
      | some credential ↦ do
        result ← verify_credential e credential
        respond e ctx (verification result) 200
    ]

  unfoldable pub credential_revoke : (credential_id : String) → Exec Response
  credential_revoke credential_id = do
    found ← revoke_credential credential_id
    elim found [
      | none ↦ fail e ctx 404 "NOT_FOUND" ("no credential '" +ₛ (credential_id +ₛ "'"))
      | some credential ↦ respond e ctx (revocation credential.id credential.state.status) 200
    ]

  unfoldable pub credential_list_for : (holder_did : String) → Exec Response
  credential_list_for holder_did = do
    held ← gets (λ w. credentials_for_holder w.credentials holder_did)
    respond e ctx (credential_list held) 200

  unfoldable pub token_class_register : RegisterTokenClassInput → Exec Response
  token_class_register payload =
      if is_incomplete payload
      then fail e ctx 400 "INVALID_REQUEST" "tokenClass, tokenStandard and name are required"
      else (do
        exists ← gets (λ w. token_class_exists w.classes payload.token_class)
        if exists
            then fail e ctx 409 "RESOURCE_CONFLICT"
                ("Token class '" +ₛ (payload.token_class +ₛ "' already exists"))
            else (do tc ← register_token_class e payload; respond e ctx (class_body tc) 201))

  unfoldable pub token_class_get : (token_class : String) → Exec Response
  token_class_get token_class = do
    found ← gets (λ w. get_token_class w.classes token_class)
    elim found [
      | none ↦ fail e ctx 404 "RESOURCE_NOT_FOUND" ("No token class '" +ₛ (token_class +ₛ "'"))
      | some tc ↦ respond e ctx (class_body tc) 200
    ]
