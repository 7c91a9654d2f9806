-- ===== src/Handlers/Token.antt =====
-- standin-service/src/handlers.ts: minting and reading tokens.
use finlabs_explore.Prelude.{ℕ, String, Option, none, some, length}
use finlabs_explore.Js.Text.{◌+ₛ◌}
use finlabs_explore.Json.{Fields}
use finlabs_explore.Types.Account.{Account}
use finlabs_explore.Types.Token.{
  MintInput, MintCode, MintResult, minted, refused, class_not_found, compliance_check_failed,
}
use finlabs_explore.Tokens.{mint_token, get_token, tokens_for_owner}
use finlabs_explore.Envelope.{RequestContext, Response, respond, accept, fail}
use finlabs_explore.Envelope.Bodies.{mint_accepted, token_body, token_list}
use finlabs_explore.Handlers.Caller.{with_caller}
use finlabs_explore.World.{Exec, gets, ◌>>=◌, random_uuid}
use finlabs_explore.World.Env.{Env}

pub record MintPayload : Type 0 where
  pub token_class : String
  pub initial_supply : String
  pub metadata_name : Option String
  pub content : Option Fields

-- The caller is the owner.
abbrev pub mint_input : MintPayload → Account → MintInput
mint_input payload account = record {
  token_class = payload.token_class;
  owner_did = account.did;
  initial_supply = payload.initial_supply;
  name = payload.metadata_name;
  content = payload.content;
}

abbrev mint_http : MintCode → ℕ
mint_http class_not_found = 404
mint_http compliance_check_failed = 403

abbrev mint_code_text : MintCode → String
mint_code_text class_not_found = "CLASS_NOT_FOUND"
mint_code_text compliance_check_failed = "COMPLIANCE_CHECK_FAILED"

module _ (e : Env) (ctx : Option RequestContext) where
  unfoldable pub mint_response : MintPayload → MintResult → Exec Response
  unfolding random_uuid
  mint_response payload (refused reason message) =
      fail e ctx (mint_http reason) (mint_code_text reason) message
  mint_response payload (minted token) = do
    tx_id ← random_uuid e
    accept e ctx (mint_accepted tx_id token.id "submitted" ("Minted " +ₛ payload.token_class)) tx_id

  unfoldable pub token_mint : MintPayload → Exec Response
  unfolding with_caller mint_response
  token_mint payload =
      with_caller e ctx λ account. do
        result ← mint_token e (mint_input payload account)
        mint_response payload result

  unfoldable pub token_get : (token_id : String) → Exec Response
  token_get token_id = do
    found ← gets (λ w. get_token w.tokens token_id)
    elim found [
      | none ↦ fail e ctx 404 "RESOURCE_NOT_FOUND" ("No token '" +ₛ (token_id +ₛ "'"))
      | some token ↦ respond e ctx (token_body token) 200
    ]

  unfoldable pub token_search : Exec Response
  unfolding with_caller
  token_search = with_caller e ctx λ account. do
    owned ← gets (λ w. tokens_for_owner w.tokens account.did)
    respond e ctx (token_list owned (length owned) 50 0) 200
