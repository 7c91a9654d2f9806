-- ===== src/Wallet/Client.antt =====
-- app/src/lib/client.ts: the requests that the wallet sends, and how it reads the replies.
use mathlib.Core.Option
use finlabs_explore.Prelude.{
  ℕ, String, Bool, false, ◌||◌, Option, none, some, or_default, ◌==◌, if◌then◌else◌,
}
use finlabs_explore.Js.Text.{◌+ₛ◌}
use finlabs_explore.Types.Account.{NewAccount}
use finlabs_explore.Types.Credential.{CredentialToken, IssueInput}
use finlabs_explore.Envelope.{
  RequestContext, Status, successful, failed, pending, accepted, Response, non_empty,
}
use finlabs_explore.Envelope.Bodies.{Body}
use finlabs_explore.Handlers.Token.{MintPayload}
use finlabs_explore.App.{Call, Request, decimal}

pub record ApiError : Type 0 where
  pub code : String
  pub message : String
  pub http_status : ℕ

-- What a call may throw: an `ApiError`, or another `Error` by its message.
pub data Failure : Type 0 where
  api_error : ApiError → Failure
  other_error : (message : String) → Failure

pub data Answer (T : Type 0) : Type 0 where
  answered : T → Answer T
  refused : Failure → Answer T

-- `context`. The time and the message's id are drawn in the browser.
unfoldable pub context : (ts msg_id id : String) → Option String → RequestContext
context ts msg_id id token = record {
  id = "api." +ₛ id;
  version = "1.0";
  ts = ts;
  msg_id = msg_id;
  transaction_id = none;
  authorization = Option.map (λ t. "Bearer " +ₛ t) (non_empty token);
}

-- One constructor for each function of `api`; a first `token` is the caller's.
pub data Api : Type 0 where
  check_availability : (address : String) → Api
  create_account : NewAccount → Api
  get_account search_keys : (token : String) → Api
  sign : (key_reference hash : String) → Api
  get_issuer : Api
  issue_credential : IssueInput → Api
  verify_credential : CredentialToken → Api
  revoke_credential : (credential_id : String) → Api
  get_token_class : (token_class : String) → Api
  mint_token : (token : String) → MintPayload → Api
  get_token : (token token_id : String) → Api
  search_tokens : (token : String) → Api
  transfer : (token token_id to : String) → Api
  get_transaction get_proof : (token tx_id : String) → Api

unfoldable pub path : Api → String
path (check_availability address) = "/v1/address/checkAvailability"
path (create_account payload) = "/v1/account/create"
path (get_account token) = "/v1/account/get"
path (search_keys token) = "/v1/account/keys/search"
path (sign key_reference hash) = "/v1/keys/sign"
path get_issuer = "/v1/credentials/issuer"
path (issue_credential payload) = "/v1/credentials/issue"
path (verify_credential credential) = "/v1/credentials/verify"
path (revoke_credential id) = "/v1/credentials/revoke"
path (get_token_class token_class) = "/v1/registry/tokenclasses/get"
path (mint_token token payload) = "/v1/token/mint"
path (get_token token token_id) = "/v1/token/get"
path (search_tokens token) = "/v1/token/search"
path (transfer token token_id to) = "/v1/token/transact"
path (get_transaction token tx_id) = "/v1/transaction/get"
path (get_proof token tx_id) = "/v1/transaction/proof"

-- The `id` of the call, before `api.` is put in front.
unfoldable pub call_id : Api → String
call_id (check_availability address) = "account.checkAvailability"
call_id (create_account payload) = "account.create"
call_id (get_account token) = "account.get"
call_id (search_keys token) = "account.keys.search"
call_id (sign key_reference hash) = "keys.sign"
call_id get_issuer = "credentials.issuer"
call_id (issue_credential payload) = "credentials.issue"
call_id (verify_credential credential) = "credentials.verify"
call_id (revoke_credential id) = "credentials.revoke"
call_id (get_token_class token_class) = "registry.tokenclasses.get"
call_id (mint_token token payload) = "token.mint"
call_id (get_token token token_id) = "token.get"
call_id (search_tokens token) = "token.search"
call_id (transfer token token_id to) = "token.transact"
call_id (get_transaction token tx_id) = "transaction.get"
call_id (get_proof token tx_id) = "transaction.proof"

unfoldable pub caller_token : Api → Option String
caller_token (get_account token) = some token
caller_token (search_keys token) = some token
caller_token (mint_token token payload) = some token
caller_token (get_token token token_id) = some token
caller_token (search_tokens token) = some token
caller_token (transfer token token_id to) = some token
caller_token (get_transaction token tx_id) = some token
caller_token (get_proof token tx_id) = some token
caller_token _ = none

-- The payload that is sent, as the service's handler for it reads it.
unfoldable pub call_of : Api → Call
call_of (check_availability address) = Call.check address
call_of (create_account payload) = Call.create payload
call_of (get_account token) = Call.profile
call_of (search_keys token) = Call.keys
call_of (sign key_reference hash) = Call.sign key_reference hash
call_of get_issuer = Call.issuer
call_of (issue_credential payload) = Call.issue (some payload)
call_of (verify_credential credential) = Call.verify none (some credential)
call_of (revoke_credential id) = Call.revoke id
call_of (get_token_class token_class) = Call.get_class token_class
call_of (mint_token token payload) = Call.mint payload
call_of (get_token token token_id) = Call.get_token token_id
call_of (search_tokens token) = Call.search_tokens
call_of (transfer token token_id to) =
    Call.transact (record { operation = "transfer"; token_id = token_id; to = some to })
call_of (get_transaction token tx_id) = Call.get_transaction tx_id
call_of (get_proof token tx_id) = Call.prove tx_id

unfoldable pub request_of : (ts msg_id : String) → Api → Request
unfolding context call_id caller_token call_of
request_of ts msg_id a = record {
  context = some (context ts msg_id (call_id a) (caller_token a));
  call = call_of a;
}

-- What the browser receives: `body` is the reply's JSON, if it is JSON.
pub record ReplyBody : Type 0 where
  pub status : Option String
  pub code : Option String
  pub message : Option String
  pub response : Body

pub record Reply : Type 0 where
  pub status : ℕ
  pub body : Option ReplyBody

abbrev is_text : String → Option String → Bool
is_text s (some t) = t == s
is_text s none = false

-- The end of `post`, from the reply on.
unfoldable pub read_body : ℕ → Option ReplyBody → Answer Body
unfolding decimal
read_body status none = refused (
    api_error (record {
      code = "BAD_RESPONSE";
      message = "Non-JSON response (HTTP " +ₛ (decimal status +ₛ ")");
      http_status = status;
    }))
read_body status (some body) =
    if is_text "successful" body.status || is_text "accepted" body.status
    then answered body.response
    else refused (
        api_error (record {
          code = or_default body.code ("HTTP_" +ₛ decimal status);
          message = or_default body.message "Request failed";
          http_status = status;
        }))

unfoldable pub read_reply : Reply → Answer Body
unfolding read_body
read_reply reply = read_body reply.status reply.body

abbrev pub status_text : Status → String
status_text successful = "successful"
status_text failed = "failed"
status_text pending = "pending"
status_text accepted = "accepted"

-- The service's response as the browser receives it.
unfoldable pub reply_of : Response → Reply
reply_of r = record {
  status = r.http;
  body = some (record {
    status = some (status_text r.context.status);
    code = Option.map (λ error. error.code) r.context.error;
    message = Option.map (λ error. error.message) r.context.error;
    response = r.response;
  });
}

-- `${e.code}: ${e.message}` for an `ApiError`, else the message.
unfoldable pub error_text : Failure → String
error_text (api_error e) = e.code +ₛ (": " +ₛ e.message)
error_text (other_error message) = message
