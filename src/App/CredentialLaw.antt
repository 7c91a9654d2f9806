-- ===== src/App/CredentialLaw.antt =====
-- Properties of the stored credentials of standin-service/src/credentials.ts that hold in every state
-- which the service can reach.
use finlabs_explore.Prelude.{
  ℕ, suc, ◌≤◌, ◌<◌, String, ◌≡◌, sym, ◌∙◌, ◌⊎◌, false, Bool-cases, Option-cases, inl, inr, some,
  Option, arith, ◌==◌, eq_iff,
}
use finlabs_explore.Js.Dict.{Dict, get, put, get-put}
use finlabs_explore.Js.Text.{◌+ₛ◌}
use finlabs_explore.Types.Credential.{CredentialToken, IssueInput, Vc}
use finlabs_explore.Types.Token.{MintInput, TransferInput}
use finlabs_explore.Types.TokenClass.{TokenClass}
use finlabs_explore.Accounts.{create_account}
use finlabs_explore.Credentials.{
  issue_credential, revoke_credential, revoked_form, issued_credential,
}
use finlabs_explore.Credentials.Issuing.{issue_credential-cases}
use finlabs_explore.TokenClasses.{register_token_class}
use finlabs_explore.Tokens.{new_token, mint_compliant, move_token, transfer_token}
use finlabs_explore.Tokens.Moving.{transfer_token-Keeps}
use finlabs_explore.Tokens.Minting.{mint_token-Keeps}
use finlabs_explore.Ledger.{record_mint, record_transfer}
use finlabs_explore.App.Invariants.{IsInvariant}
use finlabs_explore.World.{World}
use finlabs_explore.World.Env.{Env}
use finlabs_explore.World.Keeps.{Keeps, IsSupplied}

abbrev pub credential_name : Env → ℕ → String
credential_name e n = "urn:uuid:cred-" +ₛ e.uuid n

-- A property of the stored credentials that the two writes to them keep.
pub record IsCredentialLaw (e : Env) (P : ℕ → Dict CredentialToken → Type 0) : Type 0 where
  pub grows : (n m : ℕ) (d : Dict CredentialToken) → n ≤ m → P n d → P m d
  pub issues :
      (n : ℕ) (d : Dict CredentialToken) (c : CredentialToken)
      → P n d
      → P (suc (suc n)) (put d (credential_name e n) c)
  pub revokes :
      (n : ℕ) (d : Dict CredentialToken) (id : String) (c : CredentialToken)
      → get d id ≡ some c
      → P n d
      → P n (put d id (revoked_form c))

abbrev pub Holds : (ℕ → Dict CredentialToken → Type 0) → World → Type 0
Holds P w = P w.uuids w.credentials

module _ (e : Env) {P : ℕ → Dict CredentialToken → Type 0} (s : IsCredentialLaw e P) where
  credential_law-IsSupplied : IsSupplied (Holds P)
  credential_law-IsSupplied = record {
    uuid = λ w h. s.grows w.uuids _ w.credentials (omega arith) h;
    reading = λ w h. h;
    key = λ w h. h;
  }

  credential_law-issue : (input : IssueInput) → Keeps (Holds P) (issue_credential e input)
  unfolding issued_credential
  credential_law-issue input = record {
    at = λ w h. elim (issue_credential-cases e input w) [
      | inl (message, throws) ↦ rw throws (s.grows w.uuids _ w.credentials (omega arith) h)
      | inr (value, signed, valid, stores) ↦ rw stores (s.issues w.uuids w.credentials _ h)
    ];
  }

  credential_law-revoke : (id : String) → Keeps (Holds P) (revoke_credential id)
  unfolding revoke_credential
  credential_law-revoke id = record {
    at = λ w h. elim (Option-cases (get w.credentials id)) [
      | inl absent ↦ rw absent h
      | inr (c, there) ↦ rw there (s.revokes w.uuids w.credentials id c there h)
    ];
  }

  credential_law-mint :
      (input : MintInput) (tc : TokenClass) (claim : Option Vc)
      → Keeps (Holds P) (mint_compliant e input tc claim)
  unfolding mint_compliant record_mint
  credential_law-mint input tc claim = record {
    at = λ w h.
        let token = new_token e input tc claim (e.iso (e.clock w.readings)) (e.uuid w.uuids) in
        elim (Bool-cases (e.validate_token token)) [
          | inl valid ↦ rw valid (s.grows w.uuids _ w.credentials (omega arith) h)
          | inr bad ↦ rw bad (s.grows w.uuids _ w.credentials (omega arith) h)
        ];
  }

  credential_law-transfer : (input : TransferInput) → Keeps (Holds P) (transfer_token e input)
  unfolding move_token record_transfer
  credential_law-transfer input =
      transfer_token-Keeps e input
        λ t. record { at = λ w h. s.grows w.uuids _ w.credentials (omega arith) h }

  pub credential_law-IsInvariant : IsInvariant e (Holds P)
  unfolding create_account register_token_class
  credential_law-IsInvariant = record {
    supplied = credential_law-IsSupplied;
    creates = λ input. record { at = λ w h. s.grows w.uuids _ w.credentials (omega arith) h };
    issues = credential_law-issue;
    revokes = credential_law-revoke;
    registers = λ input. record { at = λ w h. h };
    mints = λ input. mint_token-Keeps e credential_law-IsSupplied input (credential_law-mint input);
    transfers = credential_law-transfer;
  }

-- Each stored credential's id was made from one of the UUIDs drawn so far.
abbrev pub AllDrawn : Env → ℕ → Dict CredentialToken → Type 0
AllDrawn e n d =
    (id : String) (c : CredentialToken)
    → get d id ≡ some c
    → (k : ℕ) × (id ≡ credential_name e k) × (k < n)

-- What is stored after a write.
stored_after :
    (d : Dict CredentialToken) (id j : String) (c u : CredentialToken)
    → get (put d id c) j ≡ some u
    → ((id ≡ j) × (c ≡ u)) ⊎ (((id == j) ≡ false) × (get d j ≡ some u))
stored_after d id j c u h = elim (Bool-cases (id == j)) [
  | inl same ↦
      let now : some c ≡ some u = rw same at (sym (get-put d id j c) ∙ h) in
      inl ((eq_iff id j).0 same, ground (arith, now))
  | inr other ↦ inr (other, rw other at (sym (get-put d id j c) ∙ h))
]

pub AllDrawn-IsCredentialLaw : (e : Env) → IsCredentialLaw e (AllDrawn e)
AllDrawn-IsCredentialLaw e = record {
  grows = λ n m d le h id c p. let (k, same, below) = h id c p in (k, same, omega arith);
  issues = λ n d c h id u p. elim (stored_after d (credential_name e n) id c u p) [
    | inl (same, _) ↦ (n, sym same, omega arith)
    | inr (_, old) ↦ let (k, same, below) = h id u old in (k, same, omega arith)
  ];
  revokes = λ n d id c there h j u p. elim (stored_after d id j (revoked_form c) u p) [
    | inl (same, _) ↦ let (k, made, below) = h id c there in (k, sym same ∙ made, below)
    | inr (_, old) ↦ h j u old
  ];
}
