-- ===== src/Wallet/Journey/Steps.antt =====
-- Every event in app/src/App.tsx leaves the journey in agreement with the screens.
use finlabs_explore.Prelude.{
  String, ◌≡◌, refl, sym, subst, Bool, true, false, not, ◌||◌, Bool-cases, inl, inr, Option, none,
  some, List, [], ◌∷◌,
}
use finlabs_explore.Crypto.Packages.{Primitives}
use finlabs_explore.Crypto.{sha256_hex}
use finlabs_explore.Wallet.Backend.{Backend}
use finlabs_explore.Wallet.Screens.Create
use finlabs_explore.Wallet.Screens.Create.{
  Session, CreateForm, settle_create, start_create, can_create, create_session,
}
use finlabs_explore.Wallet.Screens.Sign
use finlabs_explore.Wallet.Screens.Sign.{SignScreen, settle_sign, start_sign, can_sign}
use finlabs_explore.Wallet.Screens.Credentials
use finlabs_explore.Wallet.Screens.Credentials.{CredentialScreen, is_valid, can_issue, can_revoke}
use finlabs_explore.Wallet.Screens.Tokens
use finlabs_explore.Wallet.Screens.Tokens.{
  TokenScreen, is_present, settle_mint, start_mint, refuse_mint,
}
use finlabs_explore.Wallet.Screens.Transfer
use finlabs_explore.Wallet.Screens.Transfer.{TransferScreen, new_transfer, can_transfer, is_proved}
use finlabs_explore.Wallet.Shell.{
  empty_journey, Screens, Page, landing, signed_in, Wallet, new_wallet, reset, report_token, Event,
  type_address, type_name, pick_entity_type, press_create, type_message, type_verify_text,
  press_sign, press_issue, press_reverify, press_revoke, press_mint, type_recipient,
  toggle_tampered, press_transfer, press_reset, after_create, on_form, with_sign, with_credentials,
  with_transfer, with_tokens, on_minted, is_same_id, when, on_screens, on_page, step, play,
}
use finlabs_explore.Wallet.Journey.Idle.{
  IsIdleCredentials, IsIdleTransfer, implies, issue-IsIdle, reverify-IsIdle, revoke-IsIdle,
  mount-IsIdle, settle_mint-busy, renew-IsIdle, transfer-IsIdle,
}
use finlabs_explore.Wallet.Journey.{
  journey_of, IsConsistentAt, IsConsistent, settle_sign-busy, settle_create-busy,
  report_credential_lem, report_token_lem, report_transfer_lem, new_wallet-IsConsistent, implied,
  is_same_id-is_present, settle_mint-told,
}

module _ {σ : Type 0} (p : Primitives) (lower : String → String) (b : Backend σ) where
  after_create-IsConsistent :
      (session : Option Session) (form : CreateForm) (wallet : Wallet) (s : σ)
      → form.busy ≡ false
      → wallet.journey ≡ empty_journey
      → wallet.minted_id ≡ none
      → IsConsistent p (after_create p lower b (session, form) wallet s).0
  unfolding IsConsistent after_create is_valid is_present is_proved Credentials.mount Tokens.mount
      Transfer.renew
  after_create-IsConsistent none form wallet s idle h hm = (h, hm, idle)
  after_create-IsConsistent (some session) form wallet s idle h hm =
      let (c, s1) = Credentials.mount b s in
      let (t, s2) = Tokens.mount b s1 in
      (
        h,
        mount-IsIdle b s,
        renew-IsIdle b session.token none new_transfer s2 refl,
        refl,
        refl,
        refl,
      )

  kept :
      (page : Page) (wallet : Wallet)
      → wallet.page ≡ page
      → IsConsistentAt p page wallet
      → IsConsistent p wallet
  unfolding IsConsistent
  kept page wallet at h = subst (λ g. IsConsistentAt p g wallet) (sym at) h

  on_form-IsConsistent :
      (event : Event) (form : CreateForm) (wallet : Wallet) (s : σ)
      → wallet.page ≡ landing form
      → IsConsistentAt p (landing form) wallet
      → IsConsistent p (on_form p lower b event form wallet s).0
  unfolding on_form IsConsistent Create.create settle_create
  on_form-IsConsistent (type_address text) form wallet s at h = h
  on_form-IsConsistent (type_name text) form wallet s at h = h
  on_form-IsConsistent (pick_entity_type entity_type) form wallet s at h = h
  on_form-IsConsistent press_create form wallet s at (h, hm, idle) =
      let started = start_create form in
      let (answer, s') = create_session b started s in
      elim (Bool-cases (can_create form)) [
        | inl can ↦ rw can (
            after_create-IsConsistent (settle_create started answer).0
              (settle_create started answer).1 wallet s' (settle_create-busy started answer) h hm)
        | inr cannot ↦ rw cannot (kept (landing form) wallet at (h, hm, idle))
      ]
  on_form-IsConsistent (type_message text) form wallet s at h = kept (landing form) wallet at h
  on_form-IsConsistent (type_verify_text text) form wallet s at h = kept (landing form) wallet at h
  on_form-IsConsistent press_sign form wallet s at h = kept (landing form) wallet at h
  on_form-IsConsistent press_issue form wallet s at h = kept (landing form) wallet at h
  on_form-IsConsistent press_reverify form wallet s at h = kept (landing form) wallet at h
  on_form-IsConsistent press_revoke form wallet s at h = kept (landing form) wallet at h
  on_form-IsConsistent press_mint form wallet s at h = kept (landing form) wallet at h
  on_form-IsConsistent (type_recipient text) form wallet s at h = kept (landing form) wallet at h
  on_form-IsConsistent (toggle_tampered value) form wallet s at h = kept (landing form) wallet at h
  on_form-IsConsistent press_transfer form wallet s at h = kept (landing form) wallet at h
  on_form-IsConsistent press_reset form wallet s at h = kept (landing form) wallet at h

  with_sign-IsConsistent :
      (screens : Screens) (wallet : Wallet) (sign : SignScreen) (s : σ)
      → IsConsistentAt p (signed_in screens) wallet
      → sign.busy ≡ false
      → IsConsistent p (with_sign p lower b screens wallet (sign, s)).0
  unfolding IsConsistent
  with_sign-IsConsistent screens wallet sign s (h, c, t, m, g, i) idle = (h, c, t, m, idle, i)

  with_credentials-IsConsistent :
      (screens : Screens) (wallet : Wallet) (credentials : CredentialScreen) (s : σ)
      → IsConsistentAt p (signed_in screens) wallet
      → IsIdleCredentials credentials
      → IsConsistent p (with_credentials p lower b screens wallet (credentials, s)).0
  unfolding IsConsistent with_credentials
  with_credentials-IsConsistent screens wallet credentials s (h, c, t, m, g, i) idle =
      (report_credential_lem p screens credentials wallet.journey h, idle, t, m, g, i)

  with_transfer-IsConsistent :
      (screens : Screens) (wallet : Wallet) (transfer : TransferScreen) (s : σ)
      → IsConsistentAt p (signed_in screens) wallet
      → IsIdleTransfer transfer
      → IsConsistent p (with_transfer p lower b screens wallet (transfer, s)).0
  unfolding IsConsistent with_transfer
  with_transfer-IsConsistent screens wallet transfer s (h, c, t, m, g, i) idle =
      (report_transfer_lem p screens transfer wallet.journey h, c, idle, m, g, i)

  -- `screens` has the token that is minted, and its id is passed on if there is one.
  on_minted-IsConsistent :
      (minted_id : Option String) (screens : Screens) (wallet : Wallet) (s : σ)
      → wallet.journey ≡ journey_of p screens
      → IsIdleCredentials screens.credentials
      → IsIdleTransfer screens.transfer
      → screens.tokens.busy ≡ false
      → screens.sign.busy ≡ false
      → implies
          (is_present screens.tokens.minted)
          (is_present minted_id || is_present wallet.minted_id)
        ≡ true
      → IsConsistent p (on_minted p lower b minted_id screens wallet s).0
  unfolding on_minted IsConsistent is_present
  on_minted-IsConsistent none screens wallet s h c t m g i = (h, c, t, m, g, i)
  on_minted-IsConsistent (some id) screens wallet s h c t m g i =
      elim (Bool-cases (is_same_id p lower b id wallet.minted_id)) [
        | inl same ↦ rw same (
          h,
          c,
          t,
          m,
          g,
          rw (is_same_id-is_present p lower b id wallet.minted_id same) (implied _),
        )
        | inr new ↦
            let (transfer, s') =
              Transfer.renew b screens.session.token (some id) screens.transfer s in
            rw new (
              with_transfer-IsConsistent screens (record wallet { minted_id = some id }) transfer s'
                (h, c, t, m, g, implied _)
                (renew-IsIdle b screens.session.token (some id) screens.transfer s t.0))
      ]

  mint-IsConsistent :
      (screens : Screens) (wallet : Wallet) (s : σ)
      → IsConsistentAt p (signed_in screens) wallet
      → IsConsistent p
          (with_tokens p lower b screens wallet
            (Tokens.mint b screens.session.token screens.tokens s)).0
  unfolding with_tokens Tokens.mint start_mint
  mint-IsConsistent screens wallet s (h, c, t, m, g, i) =
      let (answer, s') = Tokens.mint_deed b screens.session.token s in
      let started = start_mint screens.tokens in
      let (tokens, minted_id) = settle_mint started answer in
      on_minted-IsConsistent minted_id (record screens { tokens = tokens })
        (record wallet { journey = report_token tokens wallet.journey }) s'
        (report_token_lem p screens tokens wallet.journey h) c t (settle_mint-busy b started answer)
        g (settle_mint-told started answer (is_present wallet.minted_id) i)

  when_allowed-IsConsistent :
      (allowed : Bool) (screens : Screens) (wallet : Wallet) (s : σ) (next : Wallet × σ)
      → wallet.page ≡ signed_in screens
      → IsConsistentAt p (signed_in screens) wallet
      → (allowed ≡ true → IsConsistent p next.0)
      → IsConsistent p (when p lower b allowed next (wallet, s)).0
  when_allowed-IsConsistent true screens wallet s next at h done = done refl
  when_allowed-IsConsistent false screens wallet s next at h done =
      kept (signed_in screens) wallet at h

  when-IsConsistent :
      (allowed : Bool) (screens : Screens) (wallet : Wallet) (s : σ) (next : Wallet × σ)
      → wallet.page ≡ signed_in screens
      → IsConsistentAt p (signed_in screens) wallet
      → IsConsistent p next.0
      → IsConsistent p (when p lower b allowed next (wallet, s)).0
  when-IsConsistent allowed screens wallet s next at h done =
      when_allowed-IsConsistent allowed screens wallet s next at h (λ ok. done)

  on_screens-IsConsistent :
      (event : Event) (screens : Screens) (wallet : Wallet) (s : σ)
      → wallet.page ≡ signed_in screens
      → IsConsistentAt p (signed_in screens) wallet
      → IsConsistent p (on_screens p lower b event screens wallet s).0
  unfolding on_screens
  on_screens-IsConsistent (type_message text) screens wallet s at h =
      with_sign-IsConsistent screens wallet (record screens.sign { message = text }) s h h.4
  on_screens-IsConsistent (type_verify_text text) screens wallet s at h =
      when-IsConsistent (is_present screens.sign.signature) screens wallet s _ at h
        (with_sign-IsConsistent screens wallet (record screens.sign { verify_text = text }) s h h.4)
  on_screens-IsConsistent press_sign screens wallet s at h =
      let started = start_sign screens.sign in
      let (answer, s') = b.sign screens.session.key.key_id (sha256_hex p started.message) s in
      when-IsConsistent (can_sign screens.sign) screens wallet s _ at h (
        unfold Sign.sign in
        with_sign-IsConsistent screens wallet (settle_sign started answer) s' h
          (settle_sign-busy started answer))
  on_screens-IsConsistent press_issue screens wallet s at h =
      let (credentials, s') = Credentials.issue b screens.session.profile screens.credentials s in
      when-IsConsistent (can_issue screens.credentials) screens wallet s _ at h (
        with_credentials-IsConsistent screens wallet credentials s' h
          (issue-IsIdle b screens.session.profile screens.credentials s h.1))
  on_screens-IsConsistent press_reverify screens wallet s at h =
      let (credentials, s') = Credentials.reverify b screens.credentials s in
      when-IsConsistent _ screens wallet s _ at h (
        with_credentials-IsConsistent screens wallet credentials s' h
          (reverify-IsIdle b screens.credentials s h.1))
  on_screens-IsConsistent press_revoke screens wallet s at h =
      let (credentials, s') = Credentials.revoke b screens.credentials s in
      when-IsConsistent (can_revoke screens.credentials) screens wallet s _ at h (
        with_credentials-IsConsistent screens wallet credentials s' h
          (revoke-IsIdle b screens.credentials s h.1))
  on_screens-IsConsistent press_mint screens wallet s at h =
      when-IsConsistent (not screens.tokens.busy) screens wallet s _ at h
        (mint-IsConsistent screens wallet s h)
  on_screens-IsConsistent (type_recipient text) screens wallet s at h =
      when-IsConsistent _ screens wallet s _ at h (
        with_transfer-IsConsistent screens wallet
          (record screens.transfer { recipient = lower text }) s h h.2)
  on_screens-IsConsistent (toggle_tampered value) screens wallet s at h =
      when_allowed-IsConsistent (is_present screens.transfer.proof) screens wallet s _ at h λ shown.
        with_transfer-IsConsistent screens wallet (record screens.transfer { tampered = value }) s h
          (h.2.0, rw shown (implied _))
  on_screens-IsConsistent press_transfer screens wallet s at h =
      let (transfer, s') =
        Transfer.transfer b screens.session.token wallet.minted_id screens.transfer s in
      when-IsConsistent (can_transfer screens.transfer) screens wallet s _ at h (
        with_transfer-IsConsistent screens wallet transfer s' h
          (transfer-IsIdle b screens.session.token wallet.minted_id screens.transfer s h.2))
  on_screens-IsConsistent press_reset screens wallet s at h =
      unfold reset in new_wallet-IsConsistent p
  on_screens-IsConsistent (type_address text) screens wallet s at h =
      kept (signed_in screens) wallet at h
  on_screens-IsConsistent (type_name text) screens wallet s at h =
      kept (signed_in screens) wallet at h
  on_screens-IsConsistent (pick_entity_type entity_type) screens wallet s at h =
      kept (signed_in screens) wallet at h
  on_screens-IsConsistent press_create screens wallet s at h = kept (signed_in screens) wallet at h

  on_page-IsConsistent :
      (event : Event) (page : Page) (wallet : Wallet) (s : σ)
      → wallet.page ≡ page
      → IsConsistentAt p page wallet
      → IsConsistent p (on_page p lower b event page wallet s).0
  on_page-IsConsistent event (landing form) wallet s at h =
      on_form-IsConsistent event form wallet s at h
  on_page-IsConsistent event (signed_in screens) wallet s at h =
      on_screens-IsConsistent event screens wallet s at h

  step-IsConsistent :
      (event : Event) (wallet : Wallet) (s : σ)
      → IsConsistent p wallet
      → IsConsistent p (step p lower b event wallet s).0
  unfolding IsConsistent step
  step-IsConsistent event wallet s h = on_page-IsConsistent event wallet.page wallet s refl h

  play_on-IsConsistent :
      (events : List Event) (wallet : Wallet) (s : σ)
      → IsConsistent p wallet
      → IsConsistent p (play p lower b events wallet s).0
  unfolding play
  play_on-IsConsistent [] wallet s h = h
  play_on-IsConsistent (event ∷ events) wallet s h =
      let (wallet', s') = step p lower b event wallet s in
      play_on-IsConsistent events wallet' s' (step-IsConsistent event wallet s h)

  -- After any events, each handled to its end, from the wallet's start, the journey is what the screens show
  -- (empty without a session), every handler has reset the busy flag that it had set, only a proof that is shown is tampered with, a verdict on a credential is shown only
  -- with the credential, and a minted token only if `Transfer` was told of one.
  pub play-IsConsistent :
      (events : List Event) (s : σ) → IsConsistent p (play p lower b events new_wallet s).0
  play-IsConsistent events s = play_on-IsConsistent events new_wallet s (new_wallet-IsConsistent p)
