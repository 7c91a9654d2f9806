-- ===== src/Credentials.antt =====
-- standin-service/src/credentials.ts: issuing, verifying and revoking credentials.
pub mod Signing
pub mod Holding
pub mod Issuing
pub mod Keeping
pub mod Verifying
pub mod Renaming
use mathlib.Core.List.{head?}
use mathlib.Core.Option
use finlabs_explore.Prelude.{
  ℕ, ◌+◌, ◌*◌, String, Bool, true, false, not, ◌&&◌, Option, none, some, List, [], ◌∷◌, any,
  keep_if, or_default, ltb, ◌==◌, if◌then◌else◌,
}
use finlabs_explore.Js.Dict.{Dict, get, put, values}
use finlabs_explore.Js.Text.{◌+ₛ◌}
use finlabs_explore.Json.{
  Fields, text, number, bool, obj, arr, field, end, texts, spread, set_field,
}
use finlabs_explore.Crypto.{sign_hash_hex}
use finlabs_explore.Types.Credential.{
  Vc, Identity, CredentialToken, IssueInput, Checks, VerificationResult,
}
use finlabs_explore.World.{
  World, Exec, pure, throw, gets, modify, ◌>>=◌, ◌>>◌, random_uuid, now_iso, date_now,
}
use finlabs_explore.World.Env.{Env}
use Signing.{
  issuer_did, issuer_private_key, issuer_verification_method, vc_signing_hash, verify_vc_signature,
}

abbrev pub year_ms : ℕ
year_ms = 365 * 24 * 3600 * 1000

-- The credential's `vc` before it is signed.
unfoldable pub unsigned_vc : Env → IssueInput → (now one_year id vc_id : String) → Vc
unfolding spread set_field
unsigned_vc e input now one_year id vc_id = record {
  id = "urn:uuid:vc-" +ₛ vc_id;
  contexts =
      "https://www.w3.org/2018/credentials/v1"
      ∷ "https://finternet-io.github.io/specs/schemas/credential/v1/context.jsonld" ∷ [];
  kinds = "VerifiableCredential" ∷ "KYCCredential" ∷ "IdentityCredential" ∷ [];
  issuer = issuer_did e;
  issuance_date = now;
  valid_from = now;
  valid_until = one_year;
  credential_subject =
      spread (field "id" (text input.holder_did) end) (or_default input.subject end);
  credential_status = field "id" (text ("urn:finternet:standin:status:" +ₛ id)) (
      field "type" (text "StatusList2021Entry") (
        field "statusPurpose" (text "revocation") (
          field "statusListIndex" (text "0")
            (field "statusListCredential" (text "urn:finternet:standin:status-list") end))));
  credential_schema =
      field "id"
        (text "https://finternet-io.github.io/specs/schemas/credential/v1/credential.schema.json")
        (field "type" (text "JsonSchema") end);
  proof = none;
}

-- The `metadata` of an issued credential.
unfoldable pub issued_metadata : IssueInput → (now : String) → Fields
issued_metadata input now =
    let level = or_default input.verification_level "enhanced" in
    field "tokenStandard" (arr (texts ("UNITS-SBT" ∷ "W3C-VC-2.0" ∷ []))) (
      field "name" (text ("KYC Verification (" +ₛ (level +ₛ ")"))) (
        field "symbol" (text "KYC") (
          field "fungibility" (text "nonFungible") (
            field "decimals" (number "0") (
              field "credentialType" (text (or_default input.credential_type "kycVerification")) (
                field "verificationLevel" (text level) (
                  field "status" (text "active") (
                    field "flags"
                      (obj (
                        field "transferable" (bool false) (
                          field "divisible" (bool false)
                            (field "revocable" (bool true) (field "burnable" (bool false) end)))))
                      (field "createdAt" (text now) (field "updatedAt" (text now) end))))))))))

-- The credential token around a signed `vc`.
unfoldable pub issued_credential :
    Env → IssueInput → (now one_year id : String) → Vc → CredentialToken
unfolding issued_metadata
issued_credential e input now one_year id vc = record {
  context = "https://finternet-io.github.io/specs/schemas/credential/v1/context.jsonld";
  kind = "CredentialToken";
  id = id;
  metadata = issued_metadata input now;
  claims = vc ∷ [];
  identities =
      record { id = issuer_did e; kind = "issuer" }
      ∷ record { id = input.holder_did; kind = "subject" }
      ∷ record { id = input.holder_did; kind = "holder" }
      ∷ [];
  state = record {
    status = "active";
    balance = "1";
    effective_from = now;
    effective_until = one_year;
  };
}

-- `vc.proof = { ..., proofValue }`
unfoldable pub signed_vc : Env → (now proof_value : String) → Vc → Vc
signed_vc e now proof_value vc = record vc {
  proof = some (record {
    kind = "Ed25519Signature2020";
    created = now;
    verification_method = issuer_verification_method e;
    proof_purpose = "assertionMethod";
    proof_value = proof_value;
  });
}

-- From what the signer returned; it throws on a hash that it cannot decode.
unfoldable pub attach_proof : Env → (now : String) → Vc → (proof_value : Option String) → Exec Vc
attach_proof e now vc none = throw (e.packages.hex_error (vc_signing_hash e vc))
attach_proof e now vc (some proof_value) = pure (signed_vc e now proof_value vc)

unfoldable pub sign_vc : Env → (now : String) → Vc → Exec Vc
unfolding attach_proof
sign_vc e now vc =
    attach_proof e now vc (sign_hash_hex e.packages (issuer_private_key e) (vc_signing_hash e vc))

-- `if (!validateCredential(credential)) throw ...; store.set(id, credential)`
unfoldable pub store_credential : Env → CredentialToken → Exec CredentialToken
unfolding ◌>>=◌
store_credential e credential =
    if e.validate_credential credential
    then (do
      modify (λ w. record w { credentials = put w.credentials credential.id credential })
      pure credential)
    else throw ("issued credential failed schema validation: " +ₛ e.credential_errors credential)

unfoldable pub issue_credential : Env → IssueInput → Exec CredentialToken
unfolding ◌>>=◌ now_iso date_now random_uuid sign_vc store_credential
issue_credential e input = do
  now ← now_iso e
  ms ← date_now e
  let one_year = e.iso (ms + year_ms)
  uuid ← random_uuid e
  let id = "urn:uuid:cred-" +ₛ uuid
  vc_id ← random_uuid e
  vc ← sign_vc e now (unsigned_vc e input now one_year id vc_id)
  store_credential e (issued_credential e input now one_year id vc)

-- `vc?.validUntil ? Date.now() < Date.parse(vc.validUntil) : true`: NaN compares as false.
unfoldable pub before_expiry : Env → ℕ → Option Vc → Bool
before_expiry e now none = true
before_expiry e now (some vc) =
    if vc.valid_until == ""
    then true
    else elim (e.date_parse vc.valid_until) [ none ↦ false | some until ↦ ltb now until ]

unfoldable pub status_of : Dict CredentialToken → CredentialToken → String
status_of stored credential = (or_default (get stored credential.id) credential).state.status

unfoldable pub checks_of : Env → Dict CredentialToken → ℕ → CredentialToken → Checks
unfolding before_expiry status_of
checks_of e stored now credential = record {
  schema_valid = e.validate_credential credential;
  signature_valid = elim (head? credential.claims) [
    | none ↦ false
    | some vc ↦ verify_vc_signature e vc
  ];
  not_revoked = not (status_of stored credential == "revoked");
  not_expired = before_expiry e now (head? credential.claims);
}

abbrev pub all_pass : Checks → Bool
all_pass c = c.schema_valid && c.signature_valid && c.not_revoked && c.not_expired

unfoldable pub reason_of : Checks → Option String
reason_of c =
    if all_pass c
    then none
    else if not c.signature_valid
    then some "issuer signature does not verify (credential tampered or wrong issuer)"
    else if not c.not_revoked
    then some "credential has been revoked by the issuer"
    else if not c.not_expired
    then some "credential has expired"
    else some "credential failed schema validation"

unfoldable pub verify_credential : Env → CredentialToken → Exec VerificationResult
unfolding ◌>>=◌ checks_of reason_of date_now
verify_credential e credential = do
  stored ← gets (λ w. w.credentials)
  now ← date_now e
  let checks = checks_of e stored now credential
  pure (record {
    valid = all_pass checks;
    checks = checks;
    issuer = or_default (Option.map (λ vc. vc.issuer) (head? credential.claims)) (issuer_did e);
    reason = reason_of checks;
  })

abbrev pub is_holder : String → CredentialToken → Bool
is_holder holder_did c = any (λ i. i.kind == "holder" && i.id == holder_did) c.identities

unfoldable pub credentials_for_holder : Dict CredentialToken → String → List CredentialToken
unfolding values
credentials_for_holder stored holder_did = keep_if (is_holder holder_did) (values stored)

-- `.find((c) => verifyCredential(c).valid)`: the clock is read once for each credential tried.
unfoldable pub first_valid : Env → List CredentialToken → Exec (Option CredentialToken)
unfolding ◌>>=◌ verify_credential
first_valid e [] = pure none
first_valid e (c ∷ cs) =
    let rest = first_valid e cs in
    do result ← verify_credential e c; if result.valid then pure (some c) else rest

unfoldable pub valid_credential_for : Env → String → Exec (Option CredentialToken)
unfolding ◌>>=◌ first_valid
valid_credential_for e holder_did = do
  stored ← gets (λ w. w.credentials)
  first_valid e (credentials_for_holder stored holder_did)

unfoldable pub revoked_form : CredentialToken → CredentialToken
unfolding set_field
revoked_form credential = record credential {
  state = record credential.state { status = "revoked" };
  metadata = set_field "status" (text "deprecated") credential.metadata;
}

unfoldable pub revoke_credential : String → Exec (Option CredentialToken)
unfolding ◌>>=◌
revoke_credential id = do
  found ← gets (λ w. get w.credentials id)
  elim found [
    | none ↦ pure none
    | some credential ↦ do
      modify (λ w. record w { credentials = put w.credentials id (revoked_form credential) })
      pure (some (revoked_form credential))
  ]
