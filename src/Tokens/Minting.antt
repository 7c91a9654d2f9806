-- ===== src/Tokens/Minting.antt =====
-- An invariant that the draws and the writes of a compliant mint keep is kept by `mintToken`.
use finlabs_explore.Prelude.{
  String, inl, inr, Bool-cases, Option-cases, Option, none, List, [], ◌∷◌, subst,
}
use finlabs_explore.Js.Dict.{get}
use finlabs_explore.Types.Credential.{CredentialToken, Vc}
use finlabs_explore.Types.TokenClass.{TokenClass}
use finlabs_explore.Types.Token.{MintInput}
use finlabs_explore.Credentials.{first_valid, valid_credential_for, credentials_for_holder}
use finlabs_explore.Credentials.Holding.{
  passes_at, credential_found, valid_credential_for-credential_found,
}
use finlabs_explore.Tokens.{requires_kyc, mint_compliant, mint_in_class, mint_token}
use finlabs_explore.Tokens.Hook.{mint_in_class-gated}
use finlabs_explore.World.{World}
use finlabs_explore.World.Env.{Env}
use finlabs_explore.World.Keeps.{Keeps, IsSupplied}

module _ (e : Env) {P : World → Type 0} (s : IsSupplied P) where
  first_valid-Keeps : (cs : List CredentialToken) → Keeps P (first_valid e cs)
  unfolding first_valid
  first_valid-Keeps [] = record { at = λ w h. h }
  first_valid-Keeps (c ∷ cs) = record {
    at = λ w h. elim (Bool-cases (passes_at e w.credentials w.readings c)) [
      | inl pass ↦ rw pass (s.reading w h)
      | inr fail ↦ rw fail ((first_valid-Keeps cs).at _ (s.reading w h))
    ];
  }

  valid_credential_for-Keeps : (holder : String) → Keeps P (valid_credential_for e holder)
  unfolding valid_credential_for
  valid_credential_for-Keeps holder = record {
    at = λ w h. (first_valid-Keeps (credentials_for_holder w.credentials holder)).at w h;
  }

  credential_found-readings :
      (holder : String) (w : World)
      → P w
      → P (record w { readings = (credential_found e w holder).1 })
  credential_found-readings holder w h =
      subst (λ r. P r.1) (valid_credential_for-credential_found e holder w)
        ((valid_credential_for-Keeps holder).at w h)

  module _ (input : MintInput)
      (compliant : (tc : TokenClass) (claim : Option Vc)
        → Keeps P (mint_compliant e input tc claim)) where
    mint_in_class-Keeps : (tc : TokenClass) → Keeps P (mint_in_class e input tc)
    mint_in_class-Keeps tc = record {
      at = λ w h. elim (Bool-cases (requires_kyc tc)) [
        | inl gated ↦ elim (mint_in_class-gated e input tc w gated) [
          | inl (empty, refuses) ↦ rw refuses (credential_found-readings input.owner_did w h)
          | inr (c, found, mints) ↦
              rw mints ((compliant tc _).at _ (credential_found-readings input.owner_did w h))
        ]
        | inr free ↦ unfold mint_in_class in rw free ((compliant tc none).at w h)
      ];
    }

    pub mint_token-Keeps : Keeps P (mint_token e input)
    mint_token-Keeps = record {
      at = λ w h. elim (Option-cases (get w.classes input.token_class)) [
        | inl unknown ↦ unfold mint_token in rw unknown h
        | inr (tc, known) ↦ unfold mint_token in rw known ((mint_in_class-Keeps tc).at w h)
      ];
    }
