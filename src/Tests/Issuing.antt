-- ===== src/Tests/Issuing.antt =====
-- The theorems on credentials, at concrete inputs.
use finlabs_explore.Prelude.{
  suc, none, ◌≡◌, refl, true, false, some, ltb, ◌+◌, ◌==◌, if◌then◌else◌, ◌≢◌,
}
use finlabs_explore.Js.Dict.{get, put, values}
use finlabs_explore.Js.Dict
use finlabs_explore.Crypto.{sha256_hex, text_encode, sign_hash_hex}
use finlabs_explore.Credentials.{
  year_ms, issue_credential, revoke_credential, checks_of, unsigned_vc, issued_credential,
  signed_vc,
}
use finlabs_explore.Credentials.Signing.{
  vc_signing_hash, issuer_did, issuer_private_key, verify_vc_signature,
}
use finlabs_explore.Json
use finlabs_explore.Json.{canonical}
use finlabs_explore.Json.Order.{key_le}
use finlabs_explore.Credentials.Renaming.{renamed, revoked-checks}
use finlabs_explore.Credentials.Verifying.{issue_credential-checks, revoke_credential-checks}
use finlabs_explore.App.{boot}
use finlabs_explore.Types.Credential.{Vc, VcProof}
use finlabs_explore.Credentials.Issuing.{draft}
use finlabs_explore.Wallet.Crypto.{verify_embedded_credential}
use finlabs_explore.Wallet.Agreement.{verify_embedded_credential-verify_vc_signature}
use finlabs_explore.Tests.Toy.{packages, toy, toy-IsFaithful}
use finlabs_explore.Tests.Cases.{kyc, kyc_credential, kyc_world, kyc_issued}

issue_credential-checks_example : checks_of toy kyc_world.credentials 9 kyc_credential ≡ record {
  schema_valid = true;
  signature_valid = true;
  not_revoked = true;
  not_expired = ltb 9 (toy.clock ((boot toy).readings + 1) + year_ms);
}
unfolding boot
issue_credential-checks_example =
    issue_credential-checks toy toy-IsFaithful kyc (boot toy) kyc_world kyc_credential 9 kyc_issued

kyc_stored : get kyc_world.credentials kyc_credential.id ≡ some kyc_credential
unfolding issue_credential boot sign_hash_hex sha256_hex text_encode vc_signing_hash
    issuer_private_key canonical unsigned_vc issued_credential signed_vc Json.join Json.entries
    Json.sort_keys key_le Json.texts issuer_did Dict.empty get put
kyc_stored = refl

revoke_credential-checks_example :
    checks_of toy (revoke_credential kyc_credential.id kyc_world).1.credentials 9 kyc_credential ≡ (
      if kyc_credential.id == kyc_credential.id
      then record (checks_of toy kyc_world.credentials 9 kyc_credential) { not_revoked = false }
      else checks_of toy kyc_world.credentials 9 kyc_credential)
revoke_credential-checks_example =
    revoke_credential-checks toy kyc_credential.id kyc_world kyc_credential kyc_credential 9
      kyc_stored

abbrev outer_proof : VcProof
outer_proof = record {
  kind = "Ed25519Signature2020";
  created = "t";
  verification_method = "did:key:zab#key-1";
  proof_purpose = "assertionMethod";
  proof_value = "1,";
}

abbrev claim : Vc
claim = record (draft toy kyc (boot toy)) { proof = some outer_proof }

value_given : outer_proof.proof_value ≢ ""
value_given h = cc h

verify_embedded_credential-verify_vc_signature_example :
    verify_embedded_credential packages claim ≡ verify_vc_signature toy claim
verify_embedded_credential-verify_vc_signature_example =
    verify_embedded_credential-verify_vc_signature toy claim outer_proof "zab#key-1" refl refl
      value_given

kyc_unknown : get (boot toy).credentials "other" ≡ none
unfolding boot Dict.empty get
kyc_unknown = refl

kyc_other : (kyc_credential.id == "other") ≡ false
unfolding boot issued_credential
kyc_other = refl

revoked-checks_example :
    (checks_of toy (revoke_credential kyc_credential.id kyc_world).1.credentials 9 kyc_credential
      ≡ record {
        schema_valid = true;
        signature_valid = true;
        not_revoked = false;
        not_expired = ltb 9 (toy.clock (suc (boot toy).readings) + year_ms);
      })
    × (checks_of toy
          (revoke_credential kyc_credential.id kyc_world).1.credentials
          9
          (renamed kyc_credential "other")
        ≡ record {
          schema_valid = true;
          signature_valid = true;
          not_revoked = true;
          not_expired = ltb 9 (toy.clock (suc (boot toy).readings) + year_ms);
        })
revoked-checks_example =
    revoked-checks toy toy-IsFaithful kyc (boot toy) kyc_world kyc_credential "other" 9 kyc_issued
      kyc_unknown kyc_other refl
