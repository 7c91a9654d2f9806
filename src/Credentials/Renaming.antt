-- ===== src/Credentials/Renaming.antt =====
-- What `verifyCredential` of standin-service/src/credentials.ts says of a revoked credential under another id.
use finlabs_explore.Prelude.{
  ℕ, suc, ◌+◌, String, ◌≡◌, refl, ap, sym, ◌∙◌, inl, inr, true, false, some, none, ◌==◌, eq_iff,
  ltb, not, or_default,
}
use finlabs_explore.Js.Dict.{Dict, get, put, get-put}
use finlabs_explore.Types.Credential.{CredentialToken, IssueInput, Checks}
use finlabs_explore.Credentials.{
  year_ms, issue_credential, checks_of, revoke_credential, revoked_form, status_of,
}
use finlabs_explore.Credentials.Issuing.{product, issue_credential-cases}
use finlabs_explore.Credentials.Verifying.{
  checks_ext, issue_credential-checks, revoke_credential-checks,
}
use finlabs_explore.World.{World, returned}
use finlabs_explore.World.Env.{Env, IsFaithful}

abbrev pub renamed : CredentialToken → String → CredentialToken
renamed c id = record c { id = id; state = record c.state { status = "active" } }

checks_of-renamed :
    (e : Env) (stored : Dict CredentialToken) (now : ℕ) (c : CredentialToken) (id : String)
    → get stored id ≡ none
    → checks_of e stored now (renamed c id) ≡ record (checks_of e stored now c) {
      schema_valid = e.validate_credential (renamed c id);
      not_revoked = true;
    }
unfolding checks_of status_of
checks_of-renamed e stored now c id absent =
    checks_ext _ _ _ _ _ _ _ _ refl refl
      (ap (λ o. not ((or_default o (renamed c id)).state.status == "revoked")) absent) refl

issue_credential-stored :
    (e : Env) (input : IssueInput) (w w' : World) (c : CredentialToken)
    → issue_credential e input w ≡ (returned c, w')
    → w'.credentials ≡ put w.credentials c.id c
issue_credential-stored e input w w' c h = elim (issue_credential-cases e input w) [
  | inl (message, throws) ↦ absurd (cc (ap (λ r. r.0) (sym throws ∙ h)))
  | inr (value, signed, valid, stores) ↦
      let same = sym stores ∙ h in
      let made : product e input w value ≡ c = cc (ap (λ r. r.0) same) in
      sym (ap (λ r. r.1.credentials) same) ∙ ap (λ x. put w.credentials x.id x) made
]

revoke_credential-stored :
    (id : String) (w : World) (c : CredentialToken)
    → get w.credentials id ≡ some c
    → (revoke_credential id w).1.credentials ≡ put w.credentials id (revoked_form c)
unfolding revoke_credential
revoke_credential-stored id w c there = rw there refl

-- Given an outside that is faithful (IsFaithful): let issueCredential return a credential, and let it then
-- be revoked. At every reading before a year has gone by, the credential fails the check of its revocation
-- and passes the other three checks; and its copy under another id, that was not stored before the issue,
-- and with the status active passes all four, if it passes the validation against the schema. After that
-- year both fail the check of expiry too.
pub revoked-checks :
    (e : Env)
    → IsFaithful e
    → (input : IssueInput) (w w' : World) (c : CredentialToken) (id : String) (now : ℕ)
    → issue_credential e input w ≡ (returned c, w')
    → get w.credentials id ≡ none
    → (c.id == id) ≡ false
    → e.validate_credential (renamed c id) ≡ true
    → (checks_of e (revoke_credential c.id w').1.credentials now c ≡ record {
      schema_valid = true;
      signature_valid = true;
      not_revoked = false;
      not_expired = ltb now (e.clock (suc w.readings) + year_ms);
    })
      × (checks_of e (revoke_credential c.id w').1.credentials now (renamed c id) ≡ record {
        schema_valid = true;
        signature_valid = true;
        not_revoked = true;
        not_expired = ltb now (e.clock (suc w.readings) + year_ms);
      })
revoked-checks e f input w w' c id now issued absent other valid =
    let stored = issue_credential-stored e input w w' c issued in
    let own : (c.id == c.id) ≡ true = (eq_iff c.id c.id).1 refl in
    let there : get w'.credentials c.id ≡ some c = rw (stored, get-put, own) refl in
    let after = revoke_credential-stored c.id w' c there in
    let unknown : get (revoke_credential c.id w').1.credentials id ≡ none =
      rw (after, get-put, other, stored, get-put, other) absent in
    let revoked =
      revoke_credential-checks e c.id w' c c now there
      ∙ rw own (
          ap {A = Checks} {B = Checks} (λ k. record k { not_revoked = false })
            (issue_credential-checks e f input w w' c now issued)) in
    (
      revoked,
      checks_of-renamed e _ now c id unknown
          ∙ ap {A = Checks} {B = Checks}
              (λ k. record k {
                schema_valid = e.validate_credential (renamed c id);
                not_revoked = true;
              })
              revoked
          ∙ rw valid refl,
    )
