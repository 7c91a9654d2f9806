-- ===== src/Tests/Cases.antt =====
-- A credential, a token and requests, on which the theorems are applied.
use mathlib.Core.List.{head?}
use finlabs_explore.Prelude.{◌≡◌, refl, true, none, some, [], ◌∷◌}
use finlabs_explore.Js.Dict.{get, put, values}
use finlabs_explore.Js.Dict
use finlabs_explore.Crypto.{sha256_hex, text_encode, sign_hash_hex}
use finlabs_explore.Types.Credential.{CredentialToken, IssueInput}
use finlabs_explore.Types.TokenClass.{TokenClass}
use finlabs_explore.Types.Token.{TokenInstance, MintInput, MintResult, minted}
use finlabs_explore.Credentials.{issue_credential, unsigned_vc, issued_credential, signed_vc}
use finlabs_explore.Credentials.Signing.{vc_signing_hash, issuer_did, issuer_private_key}
use finlabs_explore.Json
use finlabs_explore.Json.{canonical}
use finlabs_explore.Json.Order.{key_le}
use finlabs_explore.Credentials.Holding.{credential_found}
use finlabs_explore.Credentials.Issuing.{product}
use finlabs_explore.TokenClasses.{prop_deed}
use finlabs_explore.Tokens.{new_token, requires_kyc, mint_compliant}
use finlabs_explore.App.{Validator, Request, boot, serve, create, issue}
use finlabs_explore.App.Induction.{Reachable, booted, served}
use finlabs_explore.Types.Account.{personal}
use finlabs_explore.World.{World, Outcome, returned}
use finlabs_explore.Tests.Toy.{encode, toy}

abbrev pub kyc : IssueInput
kyc = record {
  holder_did = "did:a";
  credential_type = none;
  verification_level = none;
  subject = none;
}

abbrev pub kyc_credential : CredentialToken
kyc_credential = product toy kyc (boot toy) (encode (3 ∷ 0 ∷ []))

abbrev pub kyc_world : World
kyc_world = (issue_credential toy kyc (boot toy)).1

pub kyc_issued : issue_credential toy kyc (boot toy) ≡ (returned kyc_credential, kyc_world)
unfolding issue_credential boot sign_hash_hex sha256_hex text_encode vc_signing_hash
    issuer_private_key canonical unsigned_vc issued_credential signed_vc Json.join Json.entries
    Json.sort_keys key_le Json.texts issuer_did Dict.empty
kyc_issued = refl

abbrev pub deed : MintInput
deed = record {
  token_class = "PROP-DEED";
  owner_did = "did:a";
  initial_supply = "1";
  name = none;
  content = none;
}

abbrev pub deed_class : TokenClass
deed_class = prop_deed toy (toy.iso (toy.clock 0))

abbrev pub token_of : Outcome MintResult → TokenInstance
token_of (returned (minted t)) = t
token_of _ = new_token toy deed deed_class none "" ""

abbrev pub search_world : World
search_world = record kyc_world { readings = (credential_found toy kyc_world "did:a").1 }

abbrev pub deed_run : Outcome MintResult × World
deed_run = mint_compliant toy deed deed_class (head? kyc_credential.claims) search_world

abbrev pub deed_token : TokenInstance
deed_token = token_of deed_run.0

pub deed_gated : requires_kyc deed_class ≡ true
unfolding requires_kyc prop_deed
deed_gated = refl

abbrev pub lenient : Validator
lenient = record { reject_request = λ request. none; reject_response = λ request response. none }

abbrev pub opening : Request
opening = record {
  context = none;
  call = create (record { address = "alice"; name = "A"; entity_type = personal });
}

abbrev pub application : Request
application = record { context = none; call = issue (some kyc) }

abbrev pub opened : World
opened = (serve toy lenient opening (boot toy)).1

abbrev pub applied : World
applied = (serve toy lenient application opened).1

pub applied-Reachable : Reachable toy lenient applied
applied-Reachable = served application (served opening (booted refl) refl) refl
