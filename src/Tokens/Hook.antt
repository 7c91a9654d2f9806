-- ===== src/Tokens/Hook.antt =====
-- The compliance hook of `mintToken`, standin-service/src/tokens.ts.
use mathlib.Core.List.{head?, Memᴰ}
use mathlib.Core.Option
use finlabs_explore.Prelude.{
  ℕ, String, ◌≡◌, refl, ap, sym, subst, ◌∙◌, ◌⊎◌, inl, inr, true, false, Bool-cases, Option,
  Option-cases, none, some, [], ◌∷◌, Memᴰ-keep_if,
}
use finlabs_explore.Js.Dict.{get, values}
use finlabs_explore.Types.Credential.{Vc, CredentialToken}
use finlabs_explore.Types.TokenClass.{TokenClass}
use finlabs_explore.Types.Token.{
  MintInput, MintResult, minted, refused, compliance_check_failed, TokenInstance,
}
use finlabs_explore.Credentials.{is_holder, credentials_for_holder}
use finlabs_explore.Credentials.Holding.{
  passes_at, first_passing_sound, first_passing-none, credential_found,
  valid_credential_for-credential_found,
}
use finlabs_explore.Ledger.{record_mint}
use finlabs_explore.Tokens.{
  requires_kyc, mint_in_class, mint_compliant, new_token, mint_token, no_credential_message,
  owner_of,
}
use finlabs_explore.World.{World, Outcome, returned}
use finlabs_explore.World.Env.{Env}

-- What a minted token shows: whose it is, of which class, and the claim that it carries.
pub record Shows (input : MintInput) (tc : TokenClass) (claim : Option Vc) (t : TokenInstance)
    : Type 0 where
  pub owner : owner_of t ≡ some input.owner_did
  pub of_class : t.metadata.token_class ≡ tc.token_class
  pub claims : t.claims ≡ Option.map (λ vc. vc ∷ []) claim
  pub supply : t.state.total_supply ≡ input.initial_supply

-- A statement about the token, if there is one.
abbrev pub OfMinted {ℓ} : (TokenInstance → Type ℓ) → Outcome MintResult → Type ℓ
OfMinted P (returned (minted t)) = P t
OfMinted P _ = Unit

mint_compliant-Shows :
    (e : Env) (input : MintInput) (tc : TokenClass) (claim : Option Vc) (w : World)
    → OfMinted (Shows input tc claim) (mint_compliant e input tc claim w).0
unfolding mint_compliant record_mint owner_of
mint_compliant-Shows e input tc claim w =
    let token = new_token e input tc claim (e.iso (e.clock w.readings)) (e.uuid w.uuids) in
    elim (Bool-cases (e.validate_token token)) [
      | inl valid ↦
          rw valid (record { owner = refl; of_class = refl; claims = refl; supply = refl })
      | inr bad ↦ rw bad tt
    ]

-- A gated class refuses, and only the clock has been read; or it mints on the credential found.
pub mint_in_class-gated :
    (e : Env) (input : MintInput) (tc : TokenClass) (w : World)
    → requires_kyc tc ≡ true
    → ((credential_found e w input.owner_did).0 ≡ none)
        × (mint_in_class e input tc w ≡ (
          returned (refused compliance_check_failed (no_credential_message tc input.owner_did)),
          record w { readings = (credential_found e w input.owner_did).1 },
        ))
      ⊎ ((c : CredentialToken) × ((credential_found e w input.owner_did).0 ≡ some c)
          × (mint_in_class e input tc w
              ≡ mint_compliant e input tc
                  (head? c.claims)
                  (record w { readings = (credential_found e w input.owner_did).1 })))
unfolding mint_in_class
mint_in_class-gated e input tc w gated =
    elim (Option-cases (credential_found e w input.owner_did).0) [
      | inl empty ↦ inl (empty, rw (gated, valid_credential_for-credential_found, empty))
      | inr (c, found) ↦ inr (c, found, rw (gated, valid_credential_for-credential_found, found))
    ]

-- The credential on which a gated mint rests: it stands in the store, names the owner as its holder and
-- passed all four checks at a reading of the clock.
pub record Licenses (e : Env) (w : World) (owner_did : String) (c : CredentialToken) : Type 0 where
  pub stored : Memᴰ c (values w.credentials)
  pub holder : is_holder owner_did c ≡ true
  pub reading : ℕ
  pub passed : passes_at e w.credentials reading c ≡ true

credential_found-Licenses :
    (e : Env) (w : World) (owner_did : String) (c : CredentialToken)
    → (credential_found e w owner_did).0 ≡ some c
    → Licenses e w owner_did c
unfolding credentials_for_holder
credential_found-Licenses e w owner_did c h =
    let (m, n, pass) =
      first_passing_sound e w.credentials w.readings
        (credentials_for_holder w.credentials owner_did) c h in
    let (stored, holder) = Memᴰ-keep_if (is_holder owner_did) c (values w.credentials) m in
    record { stored = stored; holder = holder; reading = n; passed = pass }

-- If `mintToken` mints in a registered class that requires KYC, the owner held a stored credential that passed all
-- four checks at a reading of the clock, and the token carries that credential's first claim, verbatim,
-- as its only claim; it is the owner's, of the class asked for, with the supply asked for.
pub mint_token_gated :
    (e : Env) (input : MintInput) (tc : TokenClass) (w w' : World) (t : TokenInstance)
    → get w.classes input.token_class ≡ some tc
    → requires_kyc tc ≡ true
    → mint_token e input w ≡ (returned (minted t), w')
    → (c : CredentialToken) × Licenses e w input.owner_did c × Shows input tc (head? c.claims) t
unfolding mint_token
mint_token_gated e input tc w w' t known gated h =
    let h' : mint_in_class e input tc w ≡ (returned (minted t), w') = rw known at h in
    elim (mint_in_class-gated e input tc w gated) [
      | inl (empty, refuses) ↦ absurd (cc (ap (λ r. r.0) (sym refuses ∙ h')))
      | inr (c, found, mints) ↦ (
        c,
        credential_found-Licenses e w input.owner_did c found,
        subst (λ r. OfMinted (Shows input tc (head? c.claims)) r.0) (sym mints ∙ h')
            (mint_compliant-Shows e input tc (head? c.claims) _),
      )
    ]

-- Where every stored credential of the owner fails a check at every reading, a registered class that requires KYC
-- refuses with COMPLIANCE_CHECK_FAILED, and nothing has changed but the number of readings.
pub mint_token_refuses :
    (e : Env) (input : MintInput) (tc : TokenClass) (w : World)
    → get w.classes input.token_class ≡ some tc
    → requires_kyc tc ≡ true
    → ((n : ℕ) (c : CredentialToken)
        → Memᴰ c (credentials_for_holder w.credentials input.owner_did)
        → passes_at e w.credentials n c ≡ false)
    → (k : ℕ) × (mint_token e input w ≡ (
      returned (refused compliance_check_failed (no_credential_message tc input.owner_did)),
      record w { readings = k },
    ))
unfolding mint_token
mint_token_refuses e input tc w known gated fails =
    let none_found : (credential_found e w input.owner_did).0 ≡ none =
      first_passing-none e w.credentials w.readings _ fails in
    (
      (credential_found e w input.owner_did).1,
      rw known (elim (mint_in_class-gated e input tc w gated) [
        | inl (empty, refuses) ↦ refuses
        | inr (c, found, mints) ↦ absurd (cc)
      ]),
    )
