-- ===== src/Credentials/Issuing.antt =====
-- `issueCredential` of standin-service/src/credentials.ts from start to end, and the credential's check.
use finlabs_explore.Prelude.{
  suc, ◌+◌, String, ◌≡◌, refl, ◌⊎◌, inl, inr, true, Bool-cases, Option-cases, some,
}
use finlabs_explore.Js.Dict.{put}
use finlabs_explore.Js.Text.{◌+ₛ◌}
use finlabs_explore.Crypto.{sign_hash_hex}
use finlabs_explore.Types.Credential.{Vc, CredentialToken, IssueInput}
use finlabs_explore.Credentials.{
  year_ms, unsigned_vc, signed_vc, issued_credential, issue_credential,
}
use finlabs_explore.Credentials.Signing.{issuer_private_key, vc_signing_hash}
use finlabs_explore.World.{World, returned, thrown}
use finlabs_explore.World.Env.{Env}

-- The state after `issueCredential` has drawn what it draws.
abbrev pub drawn : World → World
drawn w = record w { uuids = suc (suc w.uuids); readings = suc (suc w.readings) }

module _ (e : Env) (input : IssueInput) (w : World) where
  abbrev pub draft : Vc
  draft =
      unsigned_vc e input (e.iso (e.clock w.readings)) (e.iso (e.clock (suc w.readings) + year_ms))
        ("urn:uuid:cred-" +ₛ e.uuid w.uuids) (e.uuid (suc w.uuids))

  -- The credential that is made when the signer returns `value`.
  abbrev pub product : String → CredentialToken
  product value =
      issued_credential e input (e.iso (e.clock w.readings))
        (e.iso (e.clock (suc w.readings) + year_ms)) ("urn:uuid:cred-" +ₛ e.uuid w.uuids)
        (signed_vc e (e.iso (e.clock w.readings)) value draft)

  -- `issueCredential` throws and stores nothing, or it stores a valid credential that is signed.
  pub issue_credential-cases :
      ((message : String) × (issue_credential e input w ≡ (thrown message, drawn w)))
      ⊎ ((value : String) × (sign_hash_hex e.packages
              (issuer_private_key e)
              (vc_signing_hash e draft)
            ≡ some value)
          × (e.validate_credential (product value) ≡ true)
          × (issue_credential e input w ≡ (
            returned (product value),
            record (drawn w) { credentials = put w.credentials (product value).id (product value) },
          )))
  unfolding issue_credential
  issue_credential-cases =
      elim (Option-cases
        (sign_hash_hex e.packages (issuer_private_key e) (vc_signing_hash e draft))) [
          | inl fails ↦ inl (e.packages.hex_error (vc_signing_hash e draft), rw fails refl)
          | inr (value, signed) ↦ elim (Bool-cases (e.validate_credential (product value))) [
            | inl valid ↦ inr (value, signed, valid, rw (signed, valid) refl)
            | inr bad ↦ inl (
              "issued credential failed schema validation: " +ₛ e.credential_errors (product value),
              rw (signed, bad) refl,
            )
          ]
        ]
