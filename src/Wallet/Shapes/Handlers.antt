-- ===== src/Wallet/Shapes/Handlers.antt =====
-- Each handler of standin-service/src/handlers.ts sends what the client's function declares.
use finlabs_explore.Prelude.{String, refl, Option, none, some}
use finlabs_explore.Types.Account.{NewAccount}
use finlabs_explore.Types.Credential.{CredentialToken, IssueInput}
use finlabs_explore.Types.Token.{MintResult, minted, refused, TransferResult, transferred, rejected}
use finlabs_explore.Envelope.{RequestContext}
use finlabs_explore.Handlers.Account.{
  account_create, check_availability, account_get, keys_search, keys_sign,
}
use finlabs_explore.Handlers.Credential.{
  credential_issuer, credential_issue, credential_verify, credential_revoke, token_class_get,
}
use finlabs_explore.Handlers.Token.{MintPayload, mint_response, token_mint, token_get, token_search}
use finlabs_explore.Handlers.Movement.{
  TransactPayload, transact_response, transfer_to, token_transact, transaction_get,
  transaction_proof,
}
use finlabs_explore.App.{handle}
use finlabs_explore.World.Env.{Env}
use finlabs_explore.Wallet.Client.{Api, call_of}
use finlabs_explore.Wallet.Shapes.Sending.{
  fits, Sends, Sends-throw, Sends-if, Sends-option, Sends-bind, Sends-try_catch, Sends-fail,
  Sends-respond, Sends-accept, Sends-with_caller,
}

module _ (e : Env) (ctx : Option RequestContext) where
  create-Sends :
      (payload : NewAccount)
      → Sends (fits (Api.create_account payload)) (account_create e ctx payload)
  unfolding account_create fits
  create-Sends payload = Sends-if _ _ _ (Sends-fail e ctx _ _ _) (
      Sends-bind _ _ λ taken.
        Sends-if taken _ _ (Sends-fail e ctx _ _ _)
          (Sends-bind _ _ λ c. Sends-respond e ctx _ _ refl))

  check-Sends :
      (address : String)
      → Sends (fits (Api.check_availability address)) (check_availability e ctx address)
  unfolding check_availability fits
  check-Sends address = Sends-bind _ _ λ taken. Sends-respond e ctx _ _ refl

  profile-Sends : (token : String) → Sends (fits (Api.get_account token)) (account_get e ctx)
  unfolding account_get fits
  profile-Sends token = Sends-with_caller e ctx _ λ a. Sends-respond e ctx _ _ refl

  keys-Sends : (token : String) → Sends (fits (Api.search_keys token)) (keys_search e ctx)
  unfolding keys_search fits
  keys-Sends token = Sends-with_caller e ctx _ λ a. Sends-respond e ctx _ _ refl

  sign-Sends :
      (key_reference hash : String)
      → Sends (fits (Api.sign key_reference hash)) (keys_sign e ctx key_reference hash)
  unfolding keys_sign fits
  sign-Sends key_reference hash = Sends-bind _ _ λ found.
      Sends-option found _ _ (Sends-fail e ctx _ _ _)
        (λ a. Sends-option _ _ _ (Sends-throw _) (λ s. Sends-respond e ctx _ _ refl))

  issuer-Sends : Sends (fits Api.get_issuer) (credential_issuer e ctx)
  unfolding credential_issuer fits
  issuer-Sends = Sends-respond e ctx _ _ refl

  issue-Sends :
      (input : IssueInput)
      → Sends (fits (Api.issue_credential input)) (credential_issue e ctx (some input))
  unfolding credential_issue fits
  issue-Sends input = Sends-if _ _ _ (Sends-fail e ctx _ _ _) (
      Sends-try_catch _ _ (Sends-bind _ _ λ c. Sends-respond e ctx _ _ refl)
        (λ m. Sends-fail e ctx _ _ _))

  verify-Sends :
      (c : CredentialToken)
      → Sends (fits (Api.verify_credential c)) (credential_verify e ctx none (some c))
  unfolding credential_verify fits
  verify-Sends c = Sends-bind _ _ λ r. Sends-respond e ctx _ _ refl

  revoke-Sends :
      (id : String) → Sends (fits (Api.revoke_credential id)) (credential_revoke e ctx id)
  unfolding credential_revoke fits
  revoke-Sends id =
      Sends-bind _ _
        λ found. Sends-option found _ _ (Sends-fail e ctx _ _ _) (λ c. Sends-respond e ctx _ _ refl)

  class-Sends :
      (name : String) → Sends (fits (Api.get_token_class name)) (token_class_get e ctx name)
  unfolding token_class_get fits
  class-Sends name =
      Sends-bind _ _ λ found.
        Sends-option found _ _ (Sends-fail e ctx _ _ _) (λ tc. Sends-respond e ctx _ _ refl)

  mint_response-Sends :
      (token : String) (payload : MintPayload) (r : MintResult)
      → Sends (fits (Api.mint_token token payload)) (mint_response e ctx payload r)
  unfolding mint_response fits
  mint_response-Sends token payload (refused code message) = Sends-fail e ctx _ _ _
  mint_response-Sends token payload (minted t) = Sends-bind _ _ λ id. Sends-accept e ctx _ _ refl

  mint-Sends :
      (token : String) (payload : MintPayload)
      → Sends (fits (Api.mint_token token payload)) (token_mint e ctx payload)
  unfolding token_mint
  mint-Sends token payload =
      Sends-with_caller e ctx _ λ a. Sends-bind _ _ λ r. mint_response-Sends token payload r

  token-Sends : (token id : String) → Sends (fits (Api.get_token token id)) (token_get e ctx id)
  unfolding token_get fits
  token-Sends token id =
      Sends-bind _ _
        λ found. Sends-option found _ _ (Sends-fail e ctx _ _ _) (λ t. Sends-respond e ctx _ _ refl)

  search-Sends : (token : String) → Sends (fits (Api.search_tokens token)) (token_search e ctx)
  unfolding token_search fits
  search-Sends token =
      Sends-with_caller e ctx _ λ a. Sends-bind _ _ λ owned. Sends-respond e ctx _ _ refl

  transact_response-Sends :
      (token id to address : String) (r : TransferResult)
      → Sends (fits (Api.transfer token id to)) (transact_response e ctx address r)
  unfolding transact_response fits
  transact_response-Sends token id to address (rejected code message) = Sends-fail e ctx _ _ _
  transact_response-Sends token id to address (transferred tx_id t) =
      Sends-bind _ _ λ uuid. Sends-accept e ctx _ _ refl

  transact-Sends :
      (token id to : String) (payload : TransactPayload)
      → Sends (fits (Api.transfer token id to)) (token_transact e ctx payload)
  unfolding token_transact transfer_to
  transact-Sends token id to payload = Sends-with_caller e ctx _ λ a.
      Sends-if _ _ _ (Sends-fail e ctx _ _ _) (
        Sends-option _ _ _ (Sends-fail e ctx _ _ _) λ address. Sends-bind _ _ λ found.
          Sends-option found _ _ (Sends-fail e ctx _ _ _)
            (λ recipient. Sends-bind _ _ λ r. transact_response-Sends token id to address r))

  transaction-Sends :
      (token tx_id : String)
      → Sends (fits (Api.get_transaction token tx_id)) (transaction_get e ctx tx_id)
  unfolding transaction_get fits
  transaction-Sends token tx_id =
      Sends-bind _ _ λ found.
        Sends-option found _ _ (Sends-fail e ctx _ _ _) (λ log. Sends-respond e ctx _ _ refl)

  proof-Sends :
      (token tx_id : String)
      → Sends (fits (Api.get_proof token tx_id)) (transaction_proof e ctx tx_id)
  unfolding transaction_proof fits
  proof-Sends token tx_id = Sends-bind _ _ λ found.
      Sends-option found _ _ (Sends-fail e ctx _ _ _) (λ proof. Sends-respond e ctx _ _ refl)

  pub handle-Sends : (a : Api) → Sends (fits a) (handle e ctx (call_of a))
  unfolding handle call_of
  handle-Sends (Api.check_availability address) = check-Sends address
  handle-Sends (Api.create_account payload) = create-Sends payload
  handle-Sends (Api.get_account token) = profile-Sends token
  handle-Sends (Api.search_keys token) = keys-Sends token
  handle-Sends (Api.sign key_reference hash) = sign-Sends key_reference hash
  handle-Sends Api.get_issuer = issuer-Sends
  handle-Sends (Api.issue_credential payload) = issue-Sends payload
  handle-Sends (Api.verify_credential credential) = verify-Sends credential
  handle-Sends (Api.revoke_credential id) = revoke-Sends id
  handle-Sends (Api.get_token_class name) = class-Sends name
  handle-Sends (Api.mint_token token payload) = mint-Sends token payload
  handle-Sends (Api.get_token token id) = token-Sends token id
  handle-Sends (Api.search_tokens token) = search-Sends token
  handle-Sends (Api.transfer token id to) = transact-Sends token id to _
  handle-Sends (Api.get_transaction token tx_id) = transaction-Sends token tx_id
  handle-Sends (Api.get_proof token tx_id) = proof-Sends token tx_id
