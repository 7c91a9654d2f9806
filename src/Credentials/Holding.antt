-- ===== src/Credentials/Holding.antt =====
-- `validCredentialFor` of standin-service/src/credentials.ts, without the monad: which credential it
-- finds, and how often it reads the clock.
use mathlib.Core.List.{Memᴰ}
use finlabs_explore.Prelude.{
  ℕ, suc, String, ◌≡◌, refl, ap, ◌∙◌, Bool, true, false, Bool-cases, inl, inr, sym, Option, none,
  some, List, [], ◌∷◌, arith, if◌then◌else◌,
}
use finlabs_explore.Js.Dict.{Dict}
use finlabs_explore.Types.Credential.{CredentialToken}
use finlabs_explore.Credentials.{
  all_pass, checks_of, credentials_for_holder, first_valid, valid_credential_for,
}
use finlabs_explore.World.{World, returned}
use finlabs_explore.World.Env.{Env}

module _ (e : Env) (stored : Dict CredentialToken) where
  -- The credential passes all four checks at the k-th reading of the clock.
  abbrev pub passes_at : ℕ → CredentialToken → Bool
  passes_at k c = all_pass (checks_of e stored (e.clock k) c)

  -- The first entry that passes, the clock being read once for each; and the readings then made.
  unfoldable pub first_passing : ℕ → List CredentialToken → Option CredentialToken × ℕ
  first_passing k [] = (none, k)
  first_passing k (c ∷ cs) =
      let rest = first_passing (suc k) cs in if passes_at k c then (some c, suc k) else rest

  pub first_passing_sound :
      (k : ℕ) (cs : List CredentialToken) (c : CredentialToken)
      → (first_passing k cs).0 ≡ some c
      → Memᴰ c cs × (n : ℕ) × (passes_at n c ≡ true)
  unfolding first_passing
  first_passing_sound k [] c h = cc
  first_passing_sound k (x ∷ cs) c h = elim (Bool-cases (passes_at k x)) [
    | inl pass ↦
        let same : x ≡ c = ground arith in
        (Memᴰ.head (sym same), k, ap (passes_at k) (sym same) ∙ pass)
    | inr fail ↦
        let (m, n, pass) = first_passing_sound (suc k) cs c (rw fail at h) in (Memᴰ.tail m, n, pass)
  ]

  pub first_passing-none :
      (k : ℕ) (cs : List CredentialToken)
      → ((n : ℕ) (c : CredentialToken) → Memᴰ c cs → passes_at n c ≡ false)
      → (first_passing k cs).0 ≡ none
  unfolding first_passing
  first_passing-none k [] h = refl
  first_passing-none k (x ∷ cs) h =
      rw (h k x (Memᴰ.head refl)) (first_passing-none (suc k) cs (λ n c m. h n c (Memᴰ.tail m)))

-- Looking for a credential only reads the clock.
pub first_valid-first_passing :
    (e : Env) (cs : List CredentialToken) (w : World)
    → first_valid e cs w ≡ (
      returned (first_passing e w.credentials w.readings cs).0,
      record w { readings = (first_passing e w.credentials w.readings cs).1 },
    )
unfolding first_valid first_passing
first_valid-first_passing e [] w = refl
first_valid-first_passing e (x ∷ cs) w =
    elim (Bool-cases (passes_at e w.credentials w.readings x)) [
      | inl pass ↦ rw pass
      | inr fail ↦ rw fail (first_valid-first_passing e cs (record w { readings = suc w.readings }))
    ]

abbrev pub credential_found : Env → World → String → Option CredentialToken × ℕ
credential_found e w holder_did =
    first_passing e w.credentials w.readings (credentials_for_holder w.credentials holder_did)

pub valid_credential_for-credential_found :
    (e : Env) (holder_did : String) (w : World)
    → valid_credential_for e holder_did w ≡ (
      returned (credential_found e w holder_did).0,
      record w { readings = (credential_found e w holder_did).1 },
    )
unfolding valid_credential_for
valid_credential_for-credential_found e holder_did w =
    first_valid-first_passing e (credentials_for_holder w.credentials holder_did) w
