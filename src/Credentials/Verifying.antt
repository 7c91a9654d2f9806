-- ===== src/Credentials/Verifying.antt =====
-- What `verifyCredential` of standin-service/src/credentials.ts says of a credential that was issued,
-- and of one that was revoked.
use text.Mathlib.TextLemmas.{append-nil}
use finlabs_explore.Prelude.{
  ℕ, suc, ◌+◌, String, ◌≡◌, refl, ap, sym, ◌∙◌, inl, inr, true, false, Bool-cases, some, ◌==◌,
  eq_iff, ltb, ◌++◌, Bool, not, or_default, if◌then◌else◌,
}
use finlabs_explore.Js.Dict.{Dict, get, put, get-put}
use finlabs_explore.Js.Text.{
  ◌+ₛ◌, before, before-append, lacks, lacks-append, remove_first, remove_first-append,
}
use finlabs_explore.Crypto.{
  multicodec, did_key_from_public_key, public_key_from_multibase, sign_hash_hex,
}
use finlabs_explore.Crypto.RoundTrip.{
  public_key_from_multibase-did_key_from_public_key, verify_hash_hex-sign_hash_hex,
}
use finlabs_explore.Types.Credential.{Vc, CredentialToken, IssueInput, Checks}
use finlabs_explore.Credentials.{
  year_ms, issue_credential, checks_of, signed_vc, unsigned_vc, issued_credential,
  revoke_credential, revoked_form, before_expiry, status_of,
}
use finlabs_explore.Credentials.Issuing.{draft, product, issue_credential-cases}
use finlabs_explore.Credentials.Signing.{
  issuer_private_key, issuer_verification_method, issuer_public_key_for, vc_signing_hash,
  verify_vc_signature,
}
use finlabs_explore.World.{World, returned}
use finlabs_explore.World.Env.{Env, IsFaithful}

pub checks_ext :
    (a b c d a' b' c' d' : Bool)
    → a ≡ a'
    → b ≡ b'
    → c ≡ c'
    → d ≡ d'
    → ◌≡◌ {A = Checks}
        (record { schema_valid = a; signature_valid = b; not_revoked = c; not_expired = d })
        (record { schema_valid = a'; signature_valid = b'; not_revoked = c'; not_expired = d' })
checks_ext a b c d a' b' c' d' p q r s = rw (p, q, r, s) refl

-- The status that counts is the one in the store, where the id is stored.
pub status_of-stored :
    (m : Dict CredentialToken) (c known : CredentialToken)
    → get m c.id ≡ some known
    → status_of m c ≡ known.state.status
unfolding status_of
status_of-stored m c known h = ap (λ o. (or_default o c).state.status) h

status_of-same :
    (m m' : Dict CredentialToken) (c : CredentialToken)
    → get m c.id ≡ get m' c.id
    → status_of m c ≡ status_of m' c
unfolding status_of
status_of-same m m' c h = ap (λ o. (or_default o c).state.status) h

before_expiry-dated :
    (e : Env) (now until : ℕ) (vc : Vc)
    → IsFaithful e
    → vc.valid_until ≡ e.iso until
    → before_expiry e now (some vc) ≡ ltb now until
unfolding before_expiry
before_expiry-dated e now until vc f h =
    let dated : (e.iso until == "") ≡ false = elim (Bool-cases (e.iso until == "")) [
      | inl empty ↦ absurd (f.iso-ne-empty until ((eq_iff (e.iso until) "").0 empty))
      | inr there ↦ there
    ] in
    rw (h, dated, f.date_parse-iso until) refl

module _ (e : Env) (f : IsFaithful e) where
  issuer_public_key_for-issuer :
      issuer_public_key_for e (issuer_verification_method e)
      ≡ some (e.packages.public_key_of (issuer_private_key e))
  unfolding lacks before issuer_public_key_for issuer_verification_method issuer_private_key
      did_key_from_public_key
  issuer_public_key_for-issuer =
      let p = e.packages in
      let key = p.public_key_of (issuer_private_key e) in
      let names = did_key_from_public_key p key in
      let plain = lacks-append b'#' "did:key:" names.public_key_multibase refl (
        lacks-append b'#' "z" (p.base58_encode (multicodec ++ key)) refl
          (f.standard.base58_plain _)) in
      let cut : before b'#' (names.did +ₛ "#key-1") ≡ names.did =
        before-append b'#' names.did "#key-1" plain ∙ append-nil names.did in
      ap (λ s. public_key_from_multibase p (remove_first "did:key:" s)) cut
      ∙ ap (public_key_from_multibase p)
          (remove_first-append "d" "id:key:" names.public_key_multibase)
      ∙ public_key_from_multibase-did_key_from_public_key p f.standard key

  -- The service accepts its own signature.
  verify_vc_signature-signed :
      (vc : Vc) (now value : String)
      → sign_hash_hex e.packages (issuer_private_key e) (vc_signing_hash e vc) ≡ some value
      → verify_vc_signature e (signed_vc e now value vc) ≡ true
  unfolding verify_vc_signature vc_signing_hash signed_vc
  verify_vc_signature-signed vc now value h =
      rw issuer_public_key_for-issuer
        (verify_hash_hex-sign_hash_hex e.packages f.standard (issuer_private_key e) _ value h)

  product-checks :
      (input : IssueInput) (w : World) (now : ℕ) (value : String)
      → sign_hash_hex e.packages (issuer_private_key e) (vc_signing_hash e (draft e input w))
        ≡ some value
      → e.validate_credential (product e input w value) ≡ true
      → checks_of e
          (put w.credentials (product e input w value).id (product e input w value))
          now
          (product e input w value)
        ≡ record {
          schema_valid = true;
          signature_valid = true;
          not_revoked = true;
          not_expired = ltb now (e.clock (suc w.readings) + year_ms);
        }
  unfolding checks_of issued_credential signed_vc unsigned_vc
  product-checks input w now value signed valid =
      let c = product e input w value in
      let until = e.clock (suc w.readings) + year_ms in
      let kept : get (put w.credentials c.id c) c.id ≡ some c =
        get-put w.credentials c.id c.id c ∙ rw ((eq_iff c.id c.id).1 refl) refl in
      let issued = e.iso (e.clock w.readings) in
      let vc = signed_vc e issued value (draft e input w) in
      checks_ext _ _ _ _ true true true (ltb now until) valid
        (verify_vc_signature-signed (draft e input w) issued value signed)
        (ap (λ s. not (s == "revoked")) (status_of-stored (put w.credentials c.id c) c c kept))
        (before_expiry-dated e now until vc f refl)

  -- Given an outside that is faithful: a credential that `issueCredential` returned passes `verifyCredential`'s four checks in the state
  -- that it left behind, at every reading before a year has gone by since; after that year it is expired
  -- and passes the other three.
  pub issue_credential-checks :
      (input : IssueInput) (w w' : World) (c : CredentialToken) (now : ℕ)
      → issue_credential e input w ≡ (returned c, w')
      → checks_of e w'.credentials now c ≡ record {
        schema_valid = true;
        signature_valid = true;
        not_revoked = true;
        not_expired = ltb now (e.clock (suc w.readings) + year_ms);
      }
  issue_credential-checks input w w' c now h = elim (issue_credential-cases e input w) [
    | inl (message, throws) ↦ absurd (cc (ap (λ r. r.0) (sym throws ∙ h)))
    | inr (value, signed, valid, stores) ↦
        let same = sym stores ∙ h in
        let made : product e input w value ≡ c = cc (ap (λ r. r.0) same) in
        rw (← made, ← ap (λ r. r.1) same) (product-checks input w now value signed valid)
  ]

-- After `revokeCredential` has found its credential, whatever is presented under the revoked id fails the
-- check of its revocation, at every reading and whatever status it claims; all other checks, and those of
-- every other id, are what they were.
pub revoke_credential-checks :
    (e : Env) (id : String) (w : World) (stored c : CredentialToken) (now : ℕ)
    → get w.credentials id ≡ some stored
    → checks_of e (revoke_credential id w).1.credentials now c ≡ (
        if id == c.id
        then record (checks_of e w.credentials now c) { not_revoked = false }
        else checks_of e w.credentials now c)
unfolding checks_of
revoke_credential-checks e id w stored c now there =
    let after = put w.credentials id (revoked_form stored) in
    let stores : (revoke_credential id w).1.credentials ≡ after =
      unfold revoke_credential in rw there refl in
    let revoked : (revoked_form stored).state.status ≡ "revoked" = unfold revoked_form in refl in
    elim (Bool-cases (id == c.id)) [
      | inl same ↦
          let kept : get after c.id ≡ some (revoked_form stored) =
            get-put w.credentials id c.id (revoked_form stored) ∙ rw same refl in
          rw same (
            checks_ext _ _ _ _ _ _ _ _ refl refl
              (ap (λ s. not (s == "revoked"))
                (ap (λ m. status_of m c) stores ∙ status_of-stored after c _ kept ∙ revoked))
              refl)
      | inr other ↦
          let kept : get after c.id ≡ get w.credentials c.id =
            get-put w.credentials id c.id (revoked_form stored) ∙ rw other refl in
          rw other (
            checks_ext _ _ _ _ _ _ _ _ refl refl
              (ap (λ s. not (s == "revoked"))
                (ap (λ m. status_of m c) stores ∙ status_of-same after w.credentials c kept))
              refl)
    ]
