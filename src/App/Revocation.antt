-- ===== src/App/Revocation.antt =====
-- Revocation is for good: no request to the service makes a revoked credential of
-- standin-service/src/credentials.ts active again.
use text.Mathlib.TextLemmas.{append_cancel_left}
use finlabs_explore.Prelude.{
  ℕ, String, ◌≡◌, refl, ap, ◌∙◌, false, Bool-cases, inl, inr, some, List, [], ◌∷◌, arith, ◌==◌,
  eq_iff,
}
use finlabs_explore.Js.Dict.{Dict, get, get-put, empty}
use finlabs_explore.Types.Credential.{CredentialToken}
use finlabs_explore.Credentials.{revoked_form, checks_of, status_of, all_pass}
use finlabs_explore.Credentials.Verifying.{status_of-stored}
use finlabs_explore.App.{Validator, Request, boot, serve}
use finlabs_explore.App.Induction.{serve-Keeps, Reachable, Reachable-induction}
use finlabs_explore.World.{World}
use finlabs_explore.World.Env.{Env, IsFaithful}
use finlabs_explore.App.CredentialLaw.{
  credential_name, IsCredentialLaw, Holds, credential_law-IsInvariant, AllDrawn,
  AllDrawn-IsCredentialLaw,
}

-- The credential that is stored under the id is revoked.
record IsRevoked (e : Env) (id : String) (n : ℕ) (d : Dict CredentialToken) : Type 0 where
  all_drawn : AllDrawn e n d
  stored : CredentialToken
  there : get d id ≡ some stored
  revoked : stored.state.status ≡ "revoked"

IsRevoked-IsCredentialLaw :
    (e : Env) → IsFaithful e → (id : String) → IsCredentialLaw e (IsRevoked e id)
unfolding revoked_form
IsRevoked-IsCredentialLaw e f id = record {
  grows = λ n m d le h. record {
    all_drawn = (AllDrawn-IsCredentialLaw e).grows n m d le h.all_drawn;
    stored = h.stored;
    there = h.there;
    revoked = h.revoked;
  };
  issues = λ n d c h. record {
    all_drawn = (AllDrawn-IsCredentialLaw e).issues n d c h.all_drawn;
    stored = h.stored;
    there = elim (Bool-cases (credential_name e n == id)) [
      | inl same ↦
          let (k, made, below) = h.all_drawn id h.stored h.there in
          let number : n ≡ k = f.uuid_injective _ _ (
            append_cancel_left "urn:uuid:cred-" (e.uuid n) (e.uuid k)
              ((eq_iff (credential_name e n) id).0 same ∙ made)) in
          absurd (omega arith)
      | inr other ↦ get-put d (credential_name e n) id c ∙ rw other h.there
    ];
    revoked = h.revoked;
  };
  revokes = λ n d j c there h. elim (Bool-cases (j == id)) [
    | inl same ↦ record {
      all_drawn = (AllDrawn-IsCredentialLaw e).revokes n d j c there h.all_drawn;
      stored = revoked_form c;
      there = get-put d j id (revoked_form c) ∙ rw same refl;
      revoked = refl;
    }
    | inr other ↦ record {
      all_drawn = (AllDrawn-IsCredentialLaw e).revokes n d j c there h.all_drawn;
      stored = h.stored;
      there = get-put d j id (revoked_form c) ∙ rw other h.there;
      revoked = h.revoked;
    }
  ];
}

-- One request after another.
abbrev pub serve_all : Env → Validator → List Request → World → World
serve_all e v [] w = w
serve_all e v (r ∷ rs) w = serve_all e v rs (serve e v r w).1

serve_all-IsRevoked :
    (e : Env) (f : IsFaithful e) (v : Validator) (id : String) (rs : List Request) (w : World)
    → Holds (IsRevoked e id) w
    → Holds (IsRevoked e id) (serve_all e v rs w)
serve_all-IsRevoked e f v id [] w h = h
serve_all-IsRevoked e f v id (r ∷ rs) w h =
    serve_all-IsRevoked e f v id rs (serve e v r w).1
      ((serve-Keeps e (credential_law-IsInvariant e (IsRevoked-IsCredentialLaw e f id)) v r).at w h)

boot-AllDrawn : (e : Env) → Holds (AllDrawn e) (boot e)
unfolding boot get empty
boot-AllDrawn e id c p = absurd (cc p)

-- Given an outside that is faithful: in a state that the service can reach, let the credential stored under an id be revoked. After any
-- requests whatever, `verifyCredential` still finds what is presented under that id revoked, and so not
-- valid, whatever its status says and whenever it is presented.
pub serve_all-revoked :
    (e : Env) (v : Validator) (w : World) (id : String) (stored c : CredentialToken)
    (rs : List Request) (now : ℕ)
    → IsFaithful e
    → Reachable e v w
    → get w.credentials id ≡ some stored
    → stored.state.status ≡ "revoked"
    → c.id ≡ id
    → all_pass (checks_of e (serve_all e v rs w).credentials now c) ≡ false
unfolding checks_of
serve_all-revoked e v w id stored c rs now f reach there revoked same =
    let drawn =
      Reachable-induction e v (credential_law-IsInvariant e (AllDrawn-IsCredentialLaw e))
        (boot-AllDrawn e) reach in
    let after =
      serve_all-IsRevoked e f v id rs w
        (record { all_drawn = drawn; stored = stored; there = there; revoked = revoked }) in
    let kept : status_of (serve_all e v rs w).credentials c ≡ "revoked" =
      status_of-stored (serve_all e v rs w).credentials c after.stored
        (ap (get (serve_all e v rs w).credentials) same ∙ after.there)
      ∙ after.revoked in
    rw kept (ground arith)
