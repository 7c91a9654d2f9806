-- ===== src/Wallet/Journey/Idle.antt =====
-- The handlers of the screens in app/src/App.tsx end with the buttons enabled again.
use finlabs_explore.Prelude.{
  String, ◌≡◌, refl, ap, ◌∙◌, Bool, true, false, not, ◌||◌, Option, none, some, arith,
}
use finlabs_explore.Types.Credential.{CredentialToken, VerificationResult}
use finlabs_explore.Types.Token.{TokenInstance}
use finlabs_explore.Wallet.Types.{AccountProfile}
use finlabs_explore.Wallet.Client.{Answer, answered, refused}
use finlabs_explore.Wallet.Backend.{Backend}
use finlabs_explore.Wallet.Screens.Credentials
use finlabs_explore.Wallet.Screens.Credentials.{
  CredentialScreen, Kind, issuing, verifying, revoking, run, check, settle_run, with_result, issue,
  reverify, revoke, after_issue, after_revoke, reverify_held, revoke_held, issue_input,
}
use finlabs_explore.Wallet.Screens.Tokens.{TokenScreen, is_present, settle_mint}
use finlabs_explore.Wallet.Screens.Transfer
use finlabs_explore.Wallet.Screens.Transfer.{
  TransferScreen, Moved, cleared, settle_move, transfer_held, start_transfer,
}

abbrev pub implies : Bool → Bool → Bool
implies a b = not a || b

-- The screen is not busy, and a verdict is a verdict on a credential that is held.
abbrev pub IsIdleCredentials : CredentialScreen → Type 0
IsIdleCredentials screen =
    (screen.busy ≡ none)
    × (implies (is_present screen.result) (is_present screen.credential) ≡ true)

-- The screen is not busy, and only a proof is tampered with.
abbrev pub IsIdleTransfer : TransferScreen → Type 0
IsIdleTransfer screen =
    (screen.busy ≡ false) × (implies screen.tampered (is_present screen.proof) ≡ true)

with_result-IsIdle :
    (result : Option VerificationResult) (screen : CredentialScreen)
    → screen.busy ≡ none
    → is_present screen.credential ≡ true
    → IsIdleCredentials (with_result result screen)
with_result-IsIdle none screen idle held = (idle, ground arith)
with_result-IsIdle (some r) screen idle held = (idle, ground arith)

settle_run_lem :
    {T : Type 0} (screen : CredentialScreen) (answer : Answer T)
    → ((settle_run screen answer).1.busy ≡ none)
      × ((settle_run screen answer).1.credential ≡ screen.credential)
      × ((settle_run screen answer).1.result ≡ screen.result)
settle_run_lem screen (answered a) = (refl, refl, refl)
settle_run_lem screen (refused failure) = (refl, refl, refl)

-- `screen` is any screen with the same verdict and the same credential.
settle_run-IsIdle :
    {T : Type 0} (screen : CredentialScreen) (answer : Answer T)
    → implies (is_present screen.result) (is_present screen.credential) ≡ true
    → IsIdleCredentials (settle_run screen answer).1
settle_run-IsIdle screen answer h =
    let (idle, same_credential, same_result) = settle_run_lem screen answer in
    (idle, rw (same_credential, same_result) h)

module _ {σ : Type 0} (b : Backend σ) where
  check-IsIdle :
      (credential : CredentialToken) (screen : CredentialScreen) (s : σ)
      → is_present screen.credential ≡ true
      → IsIdleCredentials (check b credential screen s).0
  unfolding check run
  check-IsIdle credential screen s held =
      let started : CredentialScreen = record screen { busy = some verifying; error = none } in
      let answer = (b.verify_credential credential s).0 in
      let (idle, same_credential, same_result) = settle_run_lem started answer in
      with_result-IsIdle (settle_run started answer).0 (settle_run started answer).1 idle
        (ap is_present same_credential ∙ held)

  after_issue-IsIdle :
      (out : Option CredentialToken) (screen : CredentialScreen) (s : σ)
      → IsIdleCredentials screen
      → IsIdleCredentials (after_issue b out screen s).0
  unfolding after_issue is_present
  after_issue-IsIdle none screen s h = h
  after_issue-IsIdle (some credential) screen s h =
      check-IsIdle credential (record screen { credential = some credential }) s refl

  pub issue-IsIdle :
      (profile : AccountProfile) (screen : CredentialScreen) (s : σ)
      → IsIdleCredentials screen
      → IsIdleCredentials (issue b profile screen s).0
  unfolding issue run
  issue-IsIdle profile screen s h =
      let started : CredentialScreen = record screen { busy = some issuing; error = none } in
      let (answer, s') = b.issue_credential (issue_input profile) s in
      after_issue-IsIdle (settle_run started answer).0 (settle_run started answer).1 s'
        (settle_run-IsIdle started answer h.1)

  reverify_held-IsIdle :
      (held : Option CredentialToken) (screen : CredentialScreen) (s : σ)
      → screen.credential ≡ held
      → IsIdleCredentials screen
      → IsIdleCredentials (reverify_held b held screen s).0
  unfolding reverify_held is_present
  reverify_held-IsIdle none screen s at h = h
  reverify_held-IsIdle (some credential) screen s at h =
      check-IsIdle credential screen s (rw at refl)

  pub reverify-IsIdle :
      (screen : CredentialScreen) (s : σ)
      → IsIdleCredentials screen
      → IsIdleCredentials (reverify b screen s).0
  unfolding reverify
  reverify-IsIdle screen s h = reverify_held-IsIdle screen.credential screen s refl h

  after_revoke-IsIdle :
      {T : Type 0} (ok : Option T) (credential : CredentialToken) (screen : CredentialScreen)
      (s : σ)
      → is_present screen.credential ≡ true
      → IsIdleCredentials screen
      → IsIdleCredentials (after_revoke b ok credential screen s).0
  unfolding after_revoke
  after_revoke-IsIdle none credential screen s held h = h
  after_revoke-IsIdle (some a) credential screen s held h = check-IsIdle credential screen s held

  revoke_held-IsIdle :
      (held : Option CredentialToken) (screen : CredentialScreen) (s : σ)
      → screen.credential ≡ held
      → IsIdleCredentials screen
      → IsIdleCredentials (revoke_held b held screen s).0
  unfolding revoke_held run is_present
  revoke_held-IsIdle none screen s at h = h
  revoke_held-IsIdle (some credential) screen s at h =
      let started : CredentialScreen = record screen { busy = some revoking; error = none } in
      let (answer, s') = b.revoke_credential credential.id s in
      let (idle, same_credential, same_result) = settle_run_lem started answer in
      after_revoke-IsIdle (settle_run started answer).0 credential (settle_run started answer).1 s'
        (ap is_present (same_credential ∙ at)) (settle_run-IsIdle started answer h.1)

  pub revoke-IsIdle :
      (screen : CredentialScreen) (s : σ)
      → IsIdleCredentials screen
      → IsIdleCredentials (revoke b screen s).0
  unfolding revoke
  revoke-IsIdle screen s h = revoke_held-IsIdle screen.credential screen s refl h

  pub mount-IsIdle : (s : σ) → IsIdleCredentials (Credentials.mount b s).0
  unfolding Credentials.mount is_present
  mount-IsIdle s = (refl, refl)

  pub settle_mint-busy :
      (screen : TokenScreen) (answer : Answer TokenInstance)
      → (settle_mint screen answer).0.busy ≡ false
  unfolding settle_mint
  settle_mint-busy screen (answered t) = refl
  settle_mint-busy screen (refused failure) = refl

  module _ (token : String) (minted_id : Option String) where
    pub renew-IsIdle :
        (screen : TransferScreen) (s : σ)
        → screen.busy ≡ false
        → IsIdleTransfer (Transfer.renew b token minted_id screen s).0
    unfolding Transfer.renew Transfer.refresh_held
    renew-IsIdle screen s idle = (idle, refl)

    settle_move-IsIdle :
        (screen : TransferScreen) (answer : Answer Moved) (s : σ)
        → implies screen.tampered (is_present screen.proof) ≡ true
        → IsIdleTransfer (settle_move b token minted_id screen answer s).0
    unfolding settle_move Transfer.refresh_held is_present
    settle_move-IsIdle screen (answered (proof, (log, moved))) s h = (refl, ground arith)
    settle_move-IsIdle screen (refused failure) s h = (refl, h)

    transfer_held-IsIdle :
        (held : Option TokenInstance) (screen : TransferScreen) (s : σ)
        → IsIdleTransfer screen
        → IsIdleTransfer (transfer_held b token minted_id held screen s).0
    unfolding transfer_held start_transfer
    transfer_held-IsIdle none screen s h = h
    transfer_held-IsIdle (some t) screen s h =
        let started = start_transfer screen in
        let (answer, s') = Transfer.move b token minted_id t started.recipient s in
        settle_move-IsIdle started answer s' refl

    pub transfer-IsIdle :
        (screen : TransferScreen) (s : σ)
        → IsIdleTransfer screen
        → IsIdleTransfer (Transfer.transfer b token minted_id screen s).0
    unfolding Transfer.transfer
    transfer-IsIdle screen s h = transfer_held-IsIdle screen.held screen s h
