-- ===== src/App/Invariants.antt =====
-- An invariant that the draws and the six operations that write keep is kept by every handler.
use finlabs_explore.Prelude.{ℕ, String, Option, none, some}
use finlabs_explore.Types.Account.{Account, NewAccount}
use finlabs_explore.Types.Credential.{IssueInput, CredentialToken}
use finlabs_explore.Types.TokenClass.{RegisterTokenClassInput}
use finlabs_explore.Types.Token.{
  MintInput, MintResult, minted, refused, TransferInput, TransferResult, transferred, rejected,
}
use finlabs_explore.Accounts.{create_account}
use finlabs_explore.Credentials.{issue_credential, revoke_credential, verify_credential}
use finlabs_explore.TokenClasses.{register_token_class}
use finlabs_explore.Tokens.{mint_token, transfer_token}
use finlabs_explore.Envelope.{
  RequestContext, Response, Status, response_context, respond, accept, fail,
}
use finlabs_explore.Envelope.Bodies.{Body}
use finlabs_explore.Handlers.Caller.{with_caller}
use finlabs_explore.Handlers.Account.{
  account_create, check_availability, resolve_address, account_get, keys_search, keys_sign,
  keys_public,
}
use finlabs_explore.Handlers.Credential.{
  credential_issuer, credential_issue, credential_verify, credential_revoke, credential_list_for,
  token_class_register, token_class_get,
}
use finlabs_explore.Handlers.Token.{MintPayload, mint_response, token_mint, token_get, token_search}
use finlabs_explore.Handlers.Movement.{
  TransactPayload, transact_response, transfer_to, token_transact, transaction_get,
  token_transactions_list, transaction_proof,
}
use finlabs_explore.App.{
  Call, create, check, resolve, profile, keys, sign, public, issuer, issue, verify, revoke,
  credentials, register, get_class, mint, get_token, search_tokens, transact, get_transaction,
  list_transactions, prove, handle,
}
use finlabs_explore.World.{World, Exec}
use finlabs_explore.World.Keeps.{
  Keeps, IsSupplied, Keeps-throw, Keeps-gets, Keeps-if, Keeps-option, Keeps-bind, Keeps-try_catch,
  random_uuid-Keeps,
}
use finlabs_explore.World.Env.{Env}

-- The obligations of an invariant.
pub record IsInvariant (e : Env) (P : World → Type 0) : Type 0 where
  pub supplied : IsSupplied P
  pub creates : (input : NewAccount) → Keeps P (create_account e input)
  pub issues : (input : IssueInput) → Keeps P (issue_credential e input)
  pub revokes : (id : String) → Keeps P (revoke_credential id)
  pub registers : (input : RegisterTokenClassInput) → Keeps P (register_token_class e input)
  pub mints : (input : MintInput) → Keeps P (mint_token e input)
  pub transfers : (input : TransferInput) → Keeps P (transfer_token e input)

module _ (e : Env) {P : World → Type 0} (inv : IsInvariant e P) (ctx : Option RequestContext) where
  response_context-Keeps : (status : Status) → Keeps P (response_context e ctx status)
  unfolding response_context
  response_context-Keeps status = record {
    at = λ w h. inv.supplied.uuid _ (inv.supplied.reading w h);
  }

  respond-Keeps : (body : Body) (http : ℕ) → Keeps P (respond e ctx body http)
  unfolding respond
  respond-Keeps body http = record { at = λ w h. inv.supplied.uuid _ (inv.supplied.reading w h) }

  accept-Keeps : (body : Body) (id : String) → Keeps P (accept e ctx body id)
  unfolding accept
  accept-Keeps body id = record { at = λ w h. inv.supplied.uuid _ (inv.supplied.reading w h) }

  pub fail-Keeps : (http : ℕ) (code message : String) → Keeps P (fail e ctx http code message)
  unfolding fail
  fail-Keeps http code message = record {
    at = λ w h. inv.supplied.uuid _ (inv.supplied.reading w h);
  }

  with_caller-Keeps :
      (next : Account → Exec Response)
      → ((a : Account) → Keeps P (next a))
      → Keeps P (with_caller e ctx next)
  unfolding with_caller
  with_caller-Keeps next k =
      Keeps-bind _ _ (Keeps-gets _) (λ o. Keeps-option o _ _ (fail-Keeps _ _ _) k)

  account_create-Keeps : (payload : NewAccount) → Keeps P (account_create e ctx payload)
  unfolding account_create
  account_create-Keeps payload = Keeps-if _ _ _ (fail-Keeps _ _ _) (
      Keeps-bind _ _ (Keeps-gets _) (λ taken.
        Keeps-if taken _ _ (fail-Keeps _ _ _)
          (Keeps-bind _ _ (inv.creates payload) (λ c. respond-Keeps _ _))))

  check_availability-Keeps : (address : String) → Keeps P (check_availability e ctx address)
  unfolding check_availability
  check_availability-Keeps address = Keeps-bind _ _ (Keeps-gets _) (λ taken. respond-Keeps _ _)

  resolve_address-Keeps : (address : String) → Keeps P (resolve_address e ctx address)
  unfolding resolve_address
  resolve_address-Keeps address =
      Keeps-bind _ _ (Keeps-gets _)
        (λ found. Keeps-option found _ _ (fail-Keeps _ _ _) (λ a. respond-Keeps _ _))

  account_get-Keeps : Keeps P (account_get e ctx)
  unfolding account_get
  account_get-Keeps = with_caller-Keeps _ (λ a. respond-Keeps _ _)

  keys_search-Keeps : Keeps P (keys_search e ctx)
  unfolding keys_search
  keys_search-Keeps = with_caller-Keeps _ (λ a. respond-Keeps _ _)

  keys_sign-Keeps : (key_reference hash : String) → Keeps P (keys_sign e ctx key_reference hash)
  unfolding keys_sign
  keys_sign-Keeps key_reference hash = Keeps-bind _ _ (Keeps-gets _) (λ found.
      Keeps-option found _ _ (fail-Keeps _ _ _)
        (λ a. Keeps-option _ _ _ (Keeps-throw _) (λ s. respond-Keeps _ _)))

  keys_public-Keeps : (key_reference : String) → Keeps P (keys_public e ctx key_reference)
  unfolding keys_public
  keys_public-Keeps key_reference =
      Keeps-bind _ _ (Keeps-gets _)
        (λ found. Keeps-option found _ _ (fail-Keeps _ _ _) (λ a. respond-Keeps _ _))

  credential_issue-Keeps : (payload : Option IssueInput) → Keeps P (credential_issue e ctx payload)
  unfolding credential_issue
  credential_issue-Keeps none = fail-Keeps _ _ _
  credential_issue-Keeps (some input) = Keeps-if _ _ _ (fail-Keeps _ _ _) (
      Keeps-try_catch _ _ (Keeps-bind _ _ (inv.issues input) (λ c. respond-Keeps _ _))
        (λ m. fail-Keeps _ _ _))

  verify_credential-Keeps : (c : CredentialToken) → Keeps P (verify_credential e c)
  unfolding verify_credential
  verify_credential-Keeps c = record { at = λ w h. inv.supplied.reading w h }

  credential_verify-Keeps :
      (id : Option String) (c : Option CredentialToken) → Keeps P (credential_verify e ctx id c)
  unfolding credential_verify
  credential_verify-Keeps id (some c) =
      Keeps-bind _ _ (verify_credential-Keeps c) (λ r. respond-Keeps _ _)
  credential_verify-Keeps id none = Keeps-bind _ _ (Keeps-gets _) (λ found.
      Keeps-option found _ _ (fail-Keeps _ _ _)
        (λ c. Keeps-bind _ _ (verify_credential-Keeps c) (λ r. respond-Keeps _ _)))

  credential_revoke-Keeps : (id : String) → Keeps P (credential_revoke e ctx id)
  unfolding credential_revoke
  credential_revoke-Keeps id =
      Keeps-bind _ _ (inv.revokes id)
        (λ found. Keeps-option found _ _ (fail-Keeps _ _ _) (λ c. respond-Keeps _ _))

  credential_list_for-Keeps : (holder : String) → Keeps P (credential_list_for e ctx holder)
  unfolding credential_list_for
  credential_list_for-Keeps holder = Keeps-bind _ _ (Keeps-gets _) (λ held. respond-Keeps _ _)

  token_class_register-Keeps :
      (payload : RegisterTokenClassInput) → Keeps P (token_class_register e ctx payload)
  unfolding token_class_register
  token_class_register-Keeps payload = Keeps-if _ _ _ (fail-Keeps _ _ _) (
      Keeps-bind _ _ (Keeps-gets _) (λ exists.
        Keeps-if exists _ _ (fail-Keeps _ _ _)
          (Keeps-bind _ _ (inv.registers payload) (λ tc. respond-Keeps _ _))))

  token_class_get-Keeps : (name : String) → Keeps P (token_class_get e ctx name)
  unfolding token_class_get
  token_class_get-Keeps name =
      Keeps-bind _ _ (Keeps-gets _)
        (λ found. Keeps-option found _ _ (fail-Keeps _ _ _) (λ tc. respond-Keeps _ _))

  mint_response-Keeps :
      (payload : MintPayload) (r : MintResult) → Keeps P (mint_response e ctx payload r)
  unfolding mint_response
  mint_response-Keeps payload (refused code message) = fail-Keeps _ _ _
  mint_response-Keeps payload (minted token) =
      Keeps-bind _ _ (random_uuid-Keeps e inv.supplied) (λ id. accept-Keeps _ _)

  token_mint-Keeps : (payload : MintPayload) → Keeps P (token_mint e ctx payload)
  unfolding token_mint
  token_mint-Keeps payload =
      with_caller-Keeps _ (λ a. Keeps-bind _ _ (inv.mints _) (λ r. mint_response-Keeps payload r))

  token_get-Keeps : (id : String) → Keeps P (token_get e ctx id)
  unfolding token_get
  token_get-Keeps id =
      Keeps-bind _ _ (Keeps-gets _)
        (λ found. Keeps-option found _ _ (fail-Keeps _ _ _) (λ t. respond-Keeps _ _))

  token_search-Keeps : Keeps P (token_search e ctx)
  unfolding token_search
  token_search-Keeps =
      with_caller-Keeps _ (λ a. Keeps-bind _ _ (Keeps-gets _) (λ owned. respond-Keeps _ _))

  transact_response-Keeps :
      (to : String) (r : TransferResult) → Keeps P (transact_response e ctx to r)
  unfolding transact_response
  transact_response-Keeps to (rejected code message) = fail-Keeps _ _ _
  transact_response-Keeps to (transferred tx_id token) =
      Keeps-bind _ _ (random_uuid-Keeps e inv.supplied) (λ id. accept-Keeps _ _)

  transfer_to-Keeps :
      (payload : TransactPayload) (a : Account) (to : String)
      → Keeps P (transfer_to e ctx payload a to)
  unfolding transfer_to
  transfer_to-Keeps payload a to = Keeps-bind _ _ (Keeps-gets _) (λ found.
      Keeps-option found _ _ (fail-Keeps _ _ _)
        (λ r. Keeps-bind _ _ (inv.transfers _) (λ result. transact_response-Keeps to result)))

  token_transact-Keeps : (payload : TransactPayload) → Keeps P (token_transact e ctx payload)
  unfolding token_transact
  token_transact-Keeps payload = with_caller-Keeps _ (λ a.
      Keeps-if _ _ _ (fail-Keeps _ _ _)
        (Keeps-option _ _ _ (fail-Keeps _ _ _) (λ to. transfer_to-Keeps payload a to)))

  transaction_get-Keeps : (id : String) → Keeps P (transaction_get e ctx id)
  unfolding transaction_get
  transaction_get-Keeps id =
      Keeps-bind _ _ (Keeps-gets _)
        (λ found. Keeps-option found _ _ (fail-Keeps _ _ _) (λ t. respond-Keeps _ _))

  token_transactions_list-Keeps :
      (filter_id token_id : Option String)
      → Keeps P (token_transactions_list e ctx filter_id token_id)
  unfolding token_transactions_list
  token_transactions_list-Keeps filter_id token_id =
      Keeps-option _ _ _ (fail-Keeps _ _ _)
        (λ id. Keeps-bind _ _ (Keeps-gets _) (λ found. respond-Keeps _ _))

  transaction_proof-Keeps : (id : String) → Keeps P (transaction_proof e ctx id)
  unfolding transaction_proof
  transaction_proof-Keeps id =
      Keeps-bind _ _ (Keeps-gets _)
        (λ found. Keeps-option found _ _ (fail-Keeps _ _ _) (λ t. respond-Keeps _ _))

  pub handle-Keeps : (c : Call) → Keeps P (handle e ctx c)
  unfolding handle
  handle-Keeps (create payload) = account_create-Keeps payload
  handle-Keeps (check address) = check_availability-Keeps address
  handle-Keeps (resolve address) = resolve_address-Keeps address
  handle-Keeps profile = account_get-Keeps
  handle-Keeps keys = keys_search-Keeps
  handle-Keeps (sign key_reference hash) = keys_sign-Keeps key_reference hash
  handle-Keeps (public key_reference) = keys_public-Keeps key_reference
  handle-Keeps issuer = unfold credential_issuer in respond-Keeps _ _
  handle-Keeps (issue payload) = credential_issue-Keeps payload
  handle-Keeps (verify id c) = credential_verify-Keeps id c
  handle-Keeps (revoke id) = credential_revoke-Keeps id
  handle-Keeps (credentials holder) = credential_list_for-Keeps holder
  handle-Keeps (register payload) = token_class_register-Keeps payload
  handle-Keeps (get_class name) = token_class_get-Keeps name
  handle-Keeps (mint payload) = token_mint-Keeps payload
  handle-Keeps (get_token id) = token_get-Keeps id
  handle-Keeps search_tokens = token_search-Keeps
  handle-Keeps (transact payload) = token_transact-Keeps payload
  handle-Keeps (get_transaction id) = transaction_get-Keeps id
  handle-Keeps (list_transactions filter_id token_id) =
      token_transactions_list-Keeps filter_id token_id
  handle-Keeps (prove id) = transaction_proof-Keeps id
