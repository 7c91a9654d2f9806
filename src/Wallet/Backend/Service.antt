-- ===== src/Wallet/Backend/Service.antt =====
-- The functions of `api` in app/src/lib/client.ts over the service of standin-service/src: `post` sends
-- the request, the service serves it, and the reply is read.
use finlabs_explore.Prelude.{String, List, Option, none, some}
use finlabs_explore.Types.Credential.{CredentialToken, VerificationResult}
use finlabs_explore.Types.TokenClass.{TokenClass}
use finlabs_explore.Types.Token.{TokenInstance}
use finlabs_explore.Types.Transaction.{TransactionLog, ProofDetails}
use finlabs_explore.Envelope.{Response}
use finlabs_explore.Envelope.Bodies.{
  Body, registration, availability, profile, key_list, signature, issuer_info, issued, verification,
  revocation, class_body, mint_accepted, token_body, token_list, transact_accepted,
  transaction_body, proof_body,
}
use finlabs_explore.App.{Validator, serve}
use finlabs_explore.World.{World, Outcome, returned, thrown}
use finlabs_explore.World.Env.{Env}
use finlabs_explore.Wallet.Types.{
  AvailabilityResponse, RegistrationSuccessResponse, AccountProfile, AccountKeyList,
  SignatureResponse, IssuerInfo, Revocation, MintAccepted, TransactAccepted,
}
use finlabs_explore.Wallet.Client.{
  Api, other_error, Answer, answered, refused, request_of, read_reply, reply_of,
}
use finlabs_explore.Wallet.Backend.{Ask, Backend}

-- The shapes that `post<T>` declares; `none` is another shape, which `as T` does not notice.
abbrev pub as_availability : Body → Option AvailabilityResponse
as_availability (availability available) = some (record { available = available })
as_availability _ = none

abbrev pub as_registration : Body → Option RegistrationSuccessResponse
as_registration (registration access_token token_type expires_in is_existing) = some (record {
  access_token = access_token;
  token_type = token_type;
  expires_in = expires_in;
  is_existing = is_existing;
})
as_registration _ = none

abbrev pub as_profile : Body → Option AccountProfile
as_profile (profile did address name entity_type) =
    some (record { did = did; address = address; name = name; entity_type = entity_type })
as_profile _ = none

abbrev pub as_keys : Body → Option AccountKeyList
as_keys (key_list keys) = some (record { keys = keys })
as_keys _ = none

abbrev pub as_signature : Body → Option SignatureResponse
as_signature (signature s) = some (record { signature = s })
as_signature _ = none

abbrev pub as_issuer : Body → Option IssuerInfo
as_issuer (issuer_info did name) = some (record { did = did; name = name })
as_issuer _ = none

abbrev pub as_issued : Body → Option CredentialToken
as_issued (issued credential) = some credential
as_issued _ = none

abbrev pub as_verification : Body → Option VerificationResult
as_verification (verification result) = some result
as_verification _ = none

abbrev pub as_revocation : Body → Option Revocation
as_revocation (revocation id status) = some (record { id = id; status = status })
as_revocation _ = none

abbrev pub as_class : Body → Option TokenClass
as_class (class_body tc) = some tc
as_class _ = none

abbrev pub as_minted : Body → Option MintAccepted
as_minted (mint_accepted tx_id token_id status message) =
    some (record { tx_id = tx_id; token_id = token_id; status = status; message = message })
as_minted _ = none

abbrev pub as_token : Body → Option TokenInstance
as_token (token_body t) = some t
as_token _ = none

abbrev pub as_tokens : Body → Option (List TokenInstance)
as_tokens (token_list ts total limit offset) = some ts
as_tokens _ = none

abbrev pub as_transact : Body → Option TransactAccepted
as_transact (transact_accepted tx_id status message) =
    some (record { tx_id = tx_id; status = status; message = message })
as_transact _ = none

abbrev pub as_log : Body → Option TransactionLog
as_log (transaction_body log) = some log
as_log _ = none

abbrev pub as_proof : Body → Option ProofDetails
as_proof (proof_body proof) = some proof
as_proof _ = none

-- What `fetch` and `post` make of the service's end.
unfoldable pub read_outcome : Outcome Response → Answer Body
unfolding read_reply reply_of
read_outcome (returned r) = read_reply (reply_of r)
read_outcome (thrown message) = refused (other_error message)

abbrev pub typed : {T : Type 0} → Option T → Answer T
typed (some a) = answered a
typed none = refused (other_error "a response of another shape")

abbrev pub read_as : {T : Type 0} → (Body → Option T) → Answer Body → Answer T
read_as shape (answered body) = typed (shape body)
read_as shape (refused failure) = refused failure

-- `stamp` is what the browser's clock and its `crypto.randomUUID()` give at that moment.
module _ (e : Env) (v : Validator) (stamp : World → String × String) where
  unfoldable pub post : Api → Ask World Body
  unfolding request_of read_outcome
  post a w =
      let (ts, msg_id) = stamp w in
      let (outcome, w') = serve e v (request_of ts msg_id a) w in (read_outcome outcome, w')

  unfoldable pub post_as : {T : Type 0} → (Body → Option T) → Api → Ask World T
  unfolding post
  post_as shape a w = let (r, w') = post a w in (read_as shape r, w')

  unfoldable pub service : Backend World
  service = record {
    check_availability = λ address. post_as as_availability (Api.check_availability address);
    create_account = λ payload. post_as as_registration (Api.create_account payload);
    get_account = λ token. post_as as_profile (Api.get_account token);
    search_keys = λ token. post_as as_keys (Api.search_keys token);
    sign = λ key_reference hash. post_as as_signature (Api.sign key_reference hash);
    get_issuer = post_as as_issuer Api.get_issuer;
    issue_credential = λ payload. post_as as_issued (Api.issue_credential payload);
    verify_credential = λ credential. post_as as_verification (Api.verify_credential credential);
    revoke_credential = λ id. post_as as_revocation (Api.revoke_credential id);
    get_token_class = λ tc. post_as as_class (Api.get_token_class tc);
    mint_token = λ token payload. post_as as_minted (Api.mint_token token payload);
    get_token = λ token id. post_as as_token (Api.get_token token id);
    search_tokens = λ token. post_as as_tokens (Api.search_tokens token);
    transfer = λ token id to. post_as as_transact (Api.transfer token id to);
    get_transaction = λ token tx_id. post_as as_log (Api.get_transaction token tx_id);
    get_proof = λ token tx_id. post_as as_proof (Api.get_proof token tx_id);
  }
