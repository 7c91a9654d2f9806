-- ===== src/App.antt =====
-- standin-service/src/app.ts: the routes, the validator in front of them and the error handler; and the
-- state in which the process starts.
pub mod Invariants
pub mod Induction
pub mod Ownership
pub mod Authorization
pub mod CredentialLaw
pub mod Revocation
pub mod Recording
pub mod Aligned
pub mod Chaining
pub mod Keys
use finlabs_explore.Prelude.{
  ℕ, zero, suc, ◌/◌, ◌%◌, String, Option, none, some, [], ◌∷◌, get_or, ltb, if◌then◌else◌,
}
use finlabs_explore.Js.Dict
use finlabs_explore.Js.Dict.{put}
use finlabs_explore.Js.Text.{◌+ₛ◌}
use finlabs_explore.Types.Account.{NewAccount}
use finlabs_explore.Types.Credential.{CredentialToken, IssueInput}
use finlabs_explore.Types.TokenClass.{RegisterTokenClassInput}
use finlabs_explore.TokenClasses.{prop_deed}
use finlabs_explore.Envelope.{RequestContext, Response, fail}
use finlabs_explore.Handlers.Account.{
  account_create, check_availability, resolve_address, account_get, keys_search, keys_sign,
  keys_public,
}
use finlabs_explore.Handlers.Credential.{
  credential_issuer, credential_issue, credential_verify, credential_revoke, credential_list_for,
  token_class_register, token_class_get,
}
use finlabs_explore.Handlers.Token.{MintPayload, token_mint, token_get, token_search}
use finlabs_explore.Handlers.Movement.{
  TransactPayload, token_transact, transaction_get, token_transactions_list, transaction_proof,
}
use finlabs_explore.World.{World, Exec, pure, Outcome, returned, thrown}
use finlabs_explore.World.Env.{Env}

-- One constructor for each route, with its payload.
pub data Call : Type 0 where
  create : NewAccount → Call
  check resolve : (address : String) → Call
  profile keys : Call
  sign : (key_reference hash : String) → Call
  public : (key_reference : String) → Call
  issuer : Call
  issue : Option IssueInput → Call
  verify : Option String → Option CredentialToken → Call
  revoke : (credential_id : String) → Call
  credentials : (holder_did : String) → Call
  register : RegisterTokenClassInput → Call
  get_class : (token_class : String) → Call
  mint : MintPayload → Call
  get_token : (token_id : String) → Call
  search_tokens : Call
  transact : TransactPayload → Call
  get_transaction : (tx_id : String) → Call
  list_transactions : (filter_id token_id : Option String) → Call
  prove : (tx_id : String) → Call

-- The path under which each handler is registered.
unfoldable pub route : Call → String
route (create payload) = "/v1/account/create"
route (check address) = "/v1/address/checkAvailability"
route (resolve address) = "/v1/address/resolve"
route profile = "/v1/account/get"
route keys = "/v1/account/keys/search"
route (sign key_reference hash) = "/v1/keys/sign"
route (public key_reference) = "/v1/keys/public"
route issuer = "/v1/credentials/issuer"
route (issue payload) = "/v1/credentials/issue"
route (verify id credential) = "/v1/credentials/verify"
route (revoke credential_id) = "/v1/credentials/revoke"
route (credentials holder_did) = "/v1/credentials/list"
route (register payload) = "/v1/registry/tokenclasses/register"
route (get_class token_class) = "/v1/registry/tokenclasses/get"
route (mint payload) = "/v1/token/mint"
route (get_token token_id) = "/v1/token/get"
route search_tokens = "/v1/token/search"
route (transact payload) = "/v1/token/transact"
route (get_transaction tx_id) = "/v1/transaction/get"
route (list_transactions filter_id token_id) = "/v1/token/transactions"
route (prove tx_id) = "/v1/transaction/proof"

pub record Request : Type 0 where
  pub context : Option RequestContext
  pub call : Call

pub record Rejection : Type 0 where
  pub status : ℕ
  pub message : String

-- express-openapi-validator: it may reject a request before the handler runs, and a response after.
pub record Validator : Type 0 where
  pub reject_request : Request → Option Rejection
  pub reject_response : Request → Response → Option Rejection

unfoldable pub handle : Env → Option RequestContext → Call → Exec Response
handle e ctx (create payload) = account_create e ctx payload
handle e ctx (check address) = check_availability e ctx address
handle e ctx (resolve address) = resolve_address e ctx address
handle e ctx profile = account_get e ctx
handle e ctx keys = keys_search e ctx
handle e ctx (sign key_reference hash) = keys_sign e ctx key_reference hash
handle e ctx (public key_reference) = keys_public e ctx key_reference
handle e ctx issuer = credential_issuer e ctx
handle e ctx (issue payload) = credential_issue e ctx payload
handle e ctx (verify id credential) = credential_verify e ctx id credential
handle e ctx (revoke id) = credential_revoke e ctx id
handle e ctx (credentials holder_did) = credential_list_for e ctx holder_did
handle e ctx (register payload) = token_class_register e ctx payload
handle e ctx (get_class token_class) = token_class_get e ctx token_class
handle e ctx (mint payload) = token_mint e ctx payload
handle e ctx (get_token token_id) = token_get e ctx token_id
handle e ctx search_tokens = token_search e ctx
handle e ctx (transact payload) = token_transact e ctx payload
handle e ctx (get_transaction tx_id) = transaction_get e ctx tx_id
handle e ctx (list_transactions filter_id token_id) =
    token_transactions_list e ctx filter_id token_id
handle e ctx (prove tx_id) = transaction_proof e ctx tx_id

digit : ℕ → String
digit n = get_or ("0" ∷ "1" ∷ "2" ∷ "3" ∷ "4" ∷ "5" ∷ "6" ∷ "7" ∷ "8" ∷ "9" ∷ []) n ""

-- A number in decimal, as a template literal prints it; `suc n` rounds are more than its digits.
digits : ℕ → ℕ → String
digits zero n = ""
digits (suc fuel) n =
    let longer = digits fuel (n / 10) +ₛ digit (n % 10) in if ltb n 10 then digit n else longer

unfoldable pub decimal : ℕ → String
unfolding digits digit
decimal n = digits (suc n) n

-- The error handler: `fail` with the error's status and message.
unfoldable pub on_error : Env → Option RequestContext → Rejection → Exec Response
unfolding decimal
on_error e ctx error = fail e ctx error.status ("HTTP_" +ₛ decimal error.status) error.message

-- What the validator makes of a response that a handler has sent.
unfoldable pub judge : Env → Request → Response → Option Rejection → Exec Response
judge e request response none = pure response
judge e request response (some error) = on_error e request.context error

-- What a handler's end leads to: a response that is judged, or an error without a status.
unfoldable pub finish : Env → Validator → Request → Outcome Response → Exec Response
unfolding judge
finish e v request (returned response) =
    judge e request response (v.reject_response request response)
finish e v request (thrown message) =
    on_error e request.context (record { status = 500; message = message })

-- A request that the validator lets through goes to its handler.
unfoldable pub admit : Env → Validator → Request → Option Rejection → Exec Response
unfolding finish
admit e v request (some error) = on_error e request.context error
admit e v request none = λ w.
    let (outcome, w') = handle e request.context request.call w in finish e v request outcome w'

unfoldable pub serve : Env → Validator → Request → Exec Response
unfolding admit on_error
serve e v request = admit e v request (v.reject_request request)

-- When the modules have loaded: the issuer's key is drawn, and `seed` has registered its class.
unfoldable pub boot : Env → World
unfolding prop_deed put
boot e = record {
  uuids = 0;
  readings = 1;
  keys = 1;
  accounts = record { by_address = Dict.empty; by_token = Dict.empty; by_key_id = Dict.empty };
  credentials = Dict.empty;
  classes = put Dict.empty "PROP-DEED" (prop_deed e (e.iso (e.clock 0)));
  tokens = record { by_id = Dict.empty; owner_to_ids = Dict.empty };
  ledger = record {
    tx_logs = Dict.empty;
    token_tx_by_id = Dict.empty;
    history_by_token = Dict.empty;
    leaves = [];
  };
}
