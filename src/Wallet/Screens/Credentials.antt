-- ===== src/Wallet/Screens/Credentials.antt =====
-- app/src/App.tsx: `Credentials`.
use finlabs_explore.Prelude.{String, Bool, true, false, not, ◌&&◌, Option, none, some}
use finlabs_explore.Json.{text, end, field}
use finlabs_explore.Types.Credential.{CredentialToken, VerificationResult, IssueInput}
use finlabs_explore.Wallet.Types.{AccountProfile, IssuerInfo}
use finlabs_explore.Wallet.Client.{Answer, answered, refused, error_text}
use finlabs_explore.Wallet.Backend.{Ask, Backend}

pub data Kind : Type 0 where
  issuing verifying revoking : Kind

pub record CredentialScreen : Type 0 where
  pub issuer : Option IssuerInfo
  pub credential : Option CredentialToken
  pub result : Option VerificationResult
  pub busy : Option Kind
  pub error : Option String

abbrev pub new_credentials : CredentialScreen
new_credentials = record {
  issuer = none;
  credential = none;
  result = none;
  busy = none;
  error = none;
}

abbrev pub is_none : {A : Type 0} → Option A → Bool
is_none none = true
is_none (some a) = false

-- `result?.valid ?? false`
unfoldable pub is_valid : Option VerificationResult → Bool
is_valid none = false
is_valid (some result) = result.valid

-- `result?.checks.notRevoked`
unfoldable pub is_not_revoked : Option VerificationResult → Bool
is_not_revoked none = false
is_not_revoked (some result) = result.checks.not_revoked

-- The buttons are there and not disabled.
unfoldable pub can_issue : CredentialScreen → Bool
can_issue screen = is_none screen.credential && is_none screen.busy

unfoldable pub can_revoke : CredentialScreen → Bool
unfolding is_not_revoked
can_revoke screen =
    not (is_none screen.credential) && is_not_revoked screen.result && is_none screen.busy

abbrev stored_issuer : Answer IssuerInfo → Option IssuerInfo
stored_issuer (answered issuer) = some issuer
stored_issuer (refused failure) = none

abbrev pub settle_run : {T : Type 0} → CredentialScreen → Answer T → Option T × CredentialScreen
settle_run screen (answered a) = (some a, record screen { busy = none })
settle_run screen (refused failure) =
    (none, record screen { busy = none; error = some (error_text failure) })

-- `run`
unfoldable pub run :
    {σ T : Type 0} → Kind → Ask σ T → CredentialScreen → σ → (Option T × CredentialScreen) × σ
unfolding error_text
run kind ask screen s =
    let (r, s') = ask s in (settle_run (record screen { busy = some kind; error = none }) r, s')

abbrev pub with_result : Option VerificationResult → CredentialScreen → CredentialScreen
with_result none screen = screen
with_result (some result) screen = record screen { result = some result }

abbrev pub issue_input : AccountProfile → IssueInput
issue_input profile = record {
  holder_did = profile.did;
  credential_type = none;
  verification_level = none;
  subject =
      some (field "fullName" (text profile.name) (field "verificationLevel" (text "enhanced") end));
}

module _ {σ : Type 0} (b : Backend σ) where
  -- When the screen appears.
  unfoldable pub mount : σ → CredentialScreen × σ
  mount s =
      let (r, s') = b.get_issuer s in (record new_credentials { issuer = stored_issuer r }, s')

  -- `run('verify', …)`, then `if (v) setResult(v)`
  unfoldable pub check : CredentialToken → CredentialScreen → σ → CredentialScreen × σ
  unfolding run
  check credential screen s =
      let ((v, screen'), s') = run verifying (b.verify_credential credential) screen s in
      (with_result v screen', s')

  unfoldable pub after_issue : Option CredentialToken → CredentialScreen → σ → CredentialScreen × σ
  unfolding check
  after_issue none screen s = (screen, s)
  after_issue (some credential) screen s =
      check credential (record screen { credential = some credential }) s

  unfoldable pub issue : AccountProfile → CredentialScreen → σ → CredentialScreen × σ
  unfolding run after_issue
  issue profile screen s =
      let ((out, screen'), s') = run issuing (b.issue_credential (issue_input profile)) screen s in
      after_issue out screen' s'

  unfoldable pub reverify_held :
      Option CredentialToken → CredentialScreen → σ → CredentialScreen × σ
  unfolding check
  reverify_held none screen s = (screen, s)
  reverify_held (some credential) screen s = check credential screen s

  unfoldable pub reverify : CredentialScreen → σ → CredentialScreen × σ
  unfolding reverify_held
  reverify screen s = reverify_held screen.credential screen s

  unfoldable pub after_revoke :
      {T : Type 0} → Option T → CredentialToken → CredentialScreen → σ → CredentialScreen × σ
  unfolding check
  after_revoke none credential screen s = (screen, s)
  after_revoke (some ok) credential screen s = check credential screen s

  unfoldable pub revoke_held : Option CredentialToken → CredentialScreen → σ → CredentialScreen × σ
  unfolding run after_revoke
  revoke_held none screen s = (screen, s)
  revoke_held (some credential) screen s =
      let ((ok, screen'), s') = run revoking (b.revoke_credential credential.id) screen s in
      after_revoke ok credential screen' s'

  unfoldable pub revoke : CredentialScreen → σ → CredentialScreen × σ
  unfolding revoke_held
  revoke screen s = revoke_held screen.credential screen s
