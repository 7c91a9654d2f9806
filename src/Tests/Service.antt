-- ===== src/Tests/Service.antt =====
-- The theorems on accounts and on the whole service, at concrete inputs.
use mathlib.Core.Option
use mathlib.Core.List.{Memᴰ}
use finlabs_explore.Prelude.{◌≡◌, ◌↔◌, refl, false, none, some, [], ◌∷◌, ◌≢◌}
use finlabs_explore.Js.Dict.{get, put, values}
use finlabs_explore.Js.Dict
use finlabs_explore.Crypto.{sha256_hex, text_encode, sign_hash_hex}
use finlabs_explore.Credentials.{
  issue_credential, revoke_credential, all_pass, checks_of, unsigned_vc, issued_credential,
  signed_vc, revoked_form,
}
use finlabs_explore.Credentials.Signing.{vc_signing_hash, issuer_did, issuer_private_key}
use finlabs_explore.Json
use finlabs_explore.Json.{canonical}
use finlabs_explore.Json.Order.{key_le}
use finlabs_explore.Tokens.{owner_of, tokens_for_owner}
use finlabs_explore.Tokens.Ownership.{IsIndexed}
use finlabs_explore.App.{Request, boot, serve, revoke, handle, profile}
use finlabs_explore.App.Induction.{Reachable, booted, served}
use finlabs_explore.App.Ownership.{Reachable-IsIndexed, tokens_for_owner-Reachable}
use finlabs_explore.Types.Account.{personal, NewAccount, CreatedAccount}
use finlabs_explore.World.{World, returned, try_catch}
use finlabs_explore.Accounts.{create_account, get_by_token}
use finlabs_explore.Accounts.Lookup.{IsRegistered, create_account-IsRegistered}
use finlabs_explore.App.Authorization.{IsUnauthorized, IsUnknown, handle-IsUnauthorized}
use finlabs_explore.Envelope.{RequestContext, respond, fail}
use finlabs_explore.Handlers.Credential.{credential_issue, credential_revoke}
use finlabs_explore.App.Revocation.{serve_all, serve_all-revoked}
use finlabs_explore.Tests.Toy.{toy, toy-IsFaithful}
use finlabs_explore.Tests.Cases.{
  kyc_credential, deed_token, lenient, opening, application, applied, applied-Reachable,
}

Reachable-IsIndexed_example : IsIndexed toy applied
Reachable-IsIndexed_example =
    Reachable-IsIndexed toy toy-IsFaithful lenient applied applied-Reachable

tokens_for_owner-Reachable_example : Memᴰ deed_token (tokens_for_owner applied.tokens "did:a") ↔ (
    (get applied.tokens.by_id deed_token.id ≡ some deed_token)
    × (owner_of deed_token ≡ some "did:a"))
tokens_for_owner-Reachable_example =
    tokens_for_owner-Reachable toy toy-IsFaithful lenient applied "did:a" deed_token
      applied-Reachable

abbrev newcomer : NewAccount
newcomer = record { address = "a@finternet"; name = "A"; entity_type = personal }

address_given : newcomer.address ≢ ""
address_given h = cc h

create_account-IsRegistered_example :
    (c : CreatedAccount) × (w' : World) × (create_account toy newcomer (boot toy)
      ≡ (returned c, w'))
    × IsRegistered newcomer (boot toy) w' c
create_account-IsRegistered_example =
    create_account-IsRegistered toy newcomer (boot toy) address_given

abbrev withdrawal : Request
withdrawal = record { context = none; call = revoke kyc_credential.id }

abbrev granted : World
granted = (serve toy lenient application (boot toy)).1

abbrev withdrawn : World
withdrawn = (serve toy lenient withdrawal granted).1

withdrawn-Reachable : Reachable toy lenient withdrawn
withdrawn-Reachable = served withdrawal (served application (booted refl) refl) refl

kyc_withdrawn : get withdrawn.credentials kyc_credential.id ≡ some (revoked_form kyc_credential)
unfolding serve handle credential_issue credential_revoke try_catch respond fail issue_credential
    revoke_credential boot get put Dict.empty sign_hash_hex vc_signing_hash sha256_hex text_encode
    canonical Json.join Json.entries Json.sort_keys key_le Json.texts unsigned_vc issuer_did
    issued_credential signed_vc issuer_private_key
kyc_withdrawn = refl

kyc_marked : (revoked_form kyc_credential).state.status ≡ "revoked"
unfolding revoked_form
kyc_marked = refl

serve_all-revoked_example :
    all_pass (
      checks_of toy
        (serve_all toy lenient (application ∷ opening ∷ []) withdrawn).credentials
        9
        kyc_credential)
    ≡ false
serve_all-revoked_example =
    serve_all-revoked toy lenient withdrawn kyc_credential.id (revoked_form kyc_credential)
      kyc_credential (application ∷ opening ∷ []) 9 toy-IsFaithful withdrawn-Reachable kyc_withdrawn
      kyc_marked refl

abbrev paid : RequestContext
paid = record {
  id = "api";
  version = "1.0";
  ts = "t";
  msg_id = "m";
  transaction_id = none;
  authorization = some "Bearer standin_none";
}

paid-IsUnknown : IsUnknown (boot toy).accounts (some paid)
unfolding get_by_token boot get Dict.empty Option.bind
paid-IsUnknown token offers = refl

handle-IsUnauthorized_example :
    IsUnauthorized (boot toy) (handle toy (some paid) profile (boot toy))
handle-IsUnauthorized_example =
    handle-IsUnauthorized toy (some paid) profile (boot toy) refl paid-IsUnknown
