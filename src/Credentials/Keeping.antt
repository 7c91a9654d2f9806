-- ===== src/Credentials/Keeping.antt =====
-- An invariant that does not read the credentials is kept by the operations of
-- standin-service/src/credentials.ts that write.
use finlabs_explore.Prelude.{String, Option-cases, inl, inr}
use finlabs_explore.Js.Dict.{Dict, get}
use finlabs_explore.Types.Credential.{CredentialToken, IssueInput}
use finlabs_explore.Credentials.{issue_credential, revoke_credential}
use finlabs_explore.Credentials.Issuing.{issue_credential-cases}
use finlabs_explore.World.{World}
use finlabs_explore.World.Env.{Env}
use finlabs_explore.World.Keeps.{Keeps, IsSupplied}

module _ (e : Env) {P : World → Type 0} (supplied : IsSupplied P)
    (unread : (w : World) (cs : Dict CredentialToken)
      → P w
      → P (record w { credentials = cs })) where
  pub issue_credential-Keeps : (input : IssueInput) → Keeps P (issue_credential e input)
  issue_credential-Keeps input = record {
    at = λ w h.
        let later = supplied.reading _ (supplied.reading _ (supplied.uuid _ (supplied.uuid w h))) in
        elim (issue_credential-cases e input w) [
          | inl (message, throws) ↦ rw throws later
          | inr (value, signed, valid, stores) ↦ rw stores (unread _ _ later)
        ];
  }

  pub revoke_credential-Keeps : (id : String) → Keeps P (revoke_credential id)
  unfolding revoke_credential
  revoke_credential-Keeps id = record {
    at = λ w h. elim (Option-cases (get w.credentials id)) [
      | inl missing ↦ rw missing h
      | inr (c, there) ↦ rw there (unread w _ h)
    ];
  }
