-- ===== src/Handlers/Movement.antt =====
-- standin-service/src/handlers.ts: transfers, the transaction log and proofs.
use finlabs_explore.Prelude.{ℕ, String, not, Option, none, some, length, ◌==◌, if◌then◌else◌}
use finlabs_explore.Js.Text.{◌+ₛ◌}
use finlabs_explore.Types.Account.{Account}
use finlabs_explore.Types.Token.{
  TransferCode, TransferResult, transferred, rejected, token_not_found, not_owner,
}
use finlabs_explore.Accounts.{get_by_address}
use finlabs_explore.Tokens.{transfer_token}
use finlabs_explore.Ledger.{get_transaction, token_transactions, get_proof}
use finlabs_explore.Envelope.{RequestContext, Response, respond, accept, fail}
use finlabs_explore.Envelope.Bodies.{
  transact_accepted, transaction_body, transaction_list, proof_body,
}
use finlabs_explore.Handlers.Caller.{with_caller}
use finlabs_explore.World.{Exec, gets, ◌>>=◌, random_uuid}
use finlabs_explore.World.Env.{Env}

pub record TransactPayload : Type 0 where
  pub operation : String
  pub token_id : String
  pub to : Option String

-- A recipient address that is there and not empty.
abbrev pub given : Option String → Option String
given none = none
given (some s) = if s == "" then none else some s

abbrev transfer_http : TransferCode → ℕ
transfer_http token_not_found = 404
transfer_http not_owner = 403

abbrev transfer_code_text : TransferCode → String
transfer_code_text token_not_found = "TOKEN_NOT_FOUND"
transfer_code_text not_owner = "NOT_OWNER"

module _ (e : Env) (ctx : Option RequestContext) where
  unfoldable pub transact_response : (to : String) → TransferResult → Exec Response
  unfolding random_uuid
  transact_response to (rejected reason message) =
      fail e ctx (transfer_http reason) (transfer_code_text reason) message
  transact_response to (transferred tx_id token) = do
    uuid ← random_uuid e
    accept e ctx (transact_accepted tx_id "submitted" ("Transferred token to " +ₛ to)) uuid

  unfoldable pub transfer_to : TransactPayload → Account → (to : String) → Exec Response
  unfolding transact_response
  transfer_to payload account to = do
    found ← gets (λ w. get_by_address w.accounts to)
    elim found [
      | none ↦ fail e ctx 404 "RECIPIENT_NOT_FOUND" ("No account for address '" +ₛ (to +ₛ "'"))
      | some recipient ↦ do
        result ←
            transfer_token e (record {
              token_id = payload.token_id;
              from_did = account.did;
              to_did = recipient.did;
            })
        transact_response to result
    ]

  unfoldable pub token_transact : TransactPayload → Exec Response
  unfolding with_caller transfer_to
  token_transact payload = with_caller e ctx λ account.
      if not (payload.operation == "transfer")
      then fail e ctx 400 "UNSUPPORTED_OPERATION"
          ("Only 'transfer' is implemented; got '" +ₛ (payload.operation +ₛ "'"))
      else elim (given payload.to) [
        | none ↦ fail e ctx 400 "INVALID_REQUEST" "transfer requires payload.to (recipient address)"
        | some to ↦ transfer_to payload account to
      ]

  unfoldable pub transaction_get : (tx_id : String) → Exec Response
  transaction_get tx_id = do
    found ← gets (λ w. get_transaction w.ledger tx_id)
    elim found [
      | none ↦ fail e ctx 404 "RESOURCE_NOT_FOUND" ("No transaction '" +ₛ (tx_id +ₛ "'"))
      | some log ↦ respond e ctx (transaction_body log) 200
    ]

  -- `filter_id` is `payload.filters?.tokenId`
  unfoldable pub token_transactions_list : (filter_id token_id : Option String) → Exec Response
  token_transactions_list filter_id token_id =
      elim (given (elim filter_id [ some id ↦ some id | none ↦ token_id ])) [
        | none ↦ fail e ctx 400 "INVALID_REQUEST" "filters.tokenId is required"
        | some id ↦ do
          list ← gets (λ w. token_transactions w.ledger id)
          respond e ctx (transaction_list list (length list) 100 0) 200
      ]

  unfoldable pub transaction_proof : (tx_id : String) → Exec Response
  transaction_proof tx_id = do
    found ← gets (λ w. get_proof e w.ledger tx_id)
    elim found [
      | none ↦ fail e ctx 404 "RESOURCE_NOT_FOUND" ("No proof for '" +ₛ (tx_id +ₛ "'"))
      | some proof ↦ respond e ctx (proof_body proof) 200
    ]
