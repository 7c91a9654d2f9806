-- ===== src/Wallet/Refusal.antt =====
-- A mint that the service refuses, in `Tokens` and `App` of app/src/App.tsx.
use finlabs_explore.Prelude.{String, ◌≡◌, refl, ap, ◌∙◌, true, false, not, none, some, ◌==◌}
use finlabs_explore.Crypto.Packages.{Primitives}
use finlabs_explore.Wallet.Client.{refused, ApiError, api_error}
use finlabs_explore.Wallet.Backend.{Backend, ask_on, ◌>>=◌}
use finlabs_explore.Wallet.Screens.Tokens
use finlabs_explore.Wallet.Screens.Tokens.{
  TokenScreen, is_present, deed_payload, refuse_mint, start_mint, settle_mint, mint_deed,
}
use finlabs_explore.Wallet.Shell.{
  Screens, signed_in, Wallet, press_mint, report_token, with_tokens, on_minted, on_screens, on_page,
  step, when,
}
use finlabs_explore.Wallet.Journey.{mark_lem}

-- The screen after a refusal of the compliance hook.
abbrev pub blocked_by : ApiError → TokenScreen → TokenScreen
blocked_by e screen = record screen {
  minted = none;
  blocked = some e.message;
  busy = false;
  error = none;
}

settle_mint-refused :
    (screen : TokenScreen) (e : ApiError)
    → (e.code == "COMPLIANCE_CHECK_FAILED") ≡ true
    → settle_mint (start_mint screen) (refused (api_error e)) ≡ (blocked_by e screen, none)
unfolding settle_mint refuse_mint start_mint
settle_mint-refused screen e h = rw h refl

module _ {σ : Type 0} (p : Primitives) (lower : String → String) (b : Backend σ) where
  mint_deed-refused :
      (token : String) (s : σ) (e : ApiError)
      → (b.mint_token token deed_payload s).0 ≡ refused (api_error e)
      → mint_deed b token s ≡ (refused (api_error e), (b.mint_token token deed_payload s).1)
  unfolding mint_deed ◌>>=◌
  mint_deed-refused token s e h =
      ap
        (λ r.
          ask_on r (λ accepted. b.get_token token accepted.token_id)
            (b.mint_token token deed_payload s).1)
        h

  mint-refused :
      (token : String) (screen : TokenScreen) (s : σ) (e : ApiError)
      → (b.mint_token token deed_payload s).0 ≡ refused (api_error e)
      → (e.code == "COMPLIANCE_CHECK_FAILED") ≡ true
      → Tokens.mint b token screen s
        ≡ ((blocked_by e screen, none), (b.mint_token token deed_payload s).1)
  unfolding Tokens.mint
  mint-refused token screen s e h code =
      ap (λ r. (settle_mint (start_mint screen) r.0, r.1)) (mint_deed-refused token s e h)
      ∙ ap (λ r. (r, (b.mint_token token deed_payload s).1)) (settle_mint-refused screen e code)

  with_tokens-blocked :
      (screens : Screens) (wallet : Wallet) (tokens : TokenScreen) (s : σ)
      → tokens.minted ≡ none
      → with_tokens p lower b screens wallet ((tokens, none), s) ≡ (
        record wallet {
          page = signed_in (record screens { tokens = tokens });
          journey = record wallet.journey { token = false };
        },
        s,
      )
  unfolding with_tokens on_minted report_token is_present
  with_tokens-blocked screens wallet tokens s h =
      let journey : report_token tokens wallet.journey ≡ record wallet.journey { token = false } =
        rw (mark_lem, h) refl in
      ap
        (λ j.
          (record wallet { page = signed_in (record screens { tokens = tokens }); journey = j }, s))
        journey

  -- If the button for minting is pressed while no mint is under way, and the service refuses with
  -- COMPLIANCE_CHECK_FAILED, the wallet shows the refusal's message, no minted token and no error, the
  -- milestone of the token is off, and nothing else in the wallet changes: not the id of the token
  -- minted last, not the transfer with its proof, not the other milestones.
  pub press_mint-blocked :
      (screens : Screens) (wallet : Wallet) (s : σ) (e : ApiError)
      → wallet.page ≡ signed_in screens
      → screens.tokens.busy ≡ false
      → (b.mint_token screens.session.token deed_payload s).0 ≡ refused (api_error e)
      → (e.code == "COMPLIANCE_CHECK_FAILED") ≡ true
      → step p lower b press_mint wallet s ≡ (
        record wallet {
          page = signed_in (record screens { tokens = blocked_by e screens.tokens });
          journey = record wallet.journey { token = false };
        },
        (b.mint_token screens.session.token deed_payload s).1,
      )
  unfolding step on_screens
  press_mint-blocked screens wallet s e at idle h code =
      ap (λ page. on_page p lower b press_mint page wallet s) at
      ∙ ap
          (λ busy.
            when p lower b (not busy)
              (with_tokens p lower b screens wallet
                (Tokens.mint b screens.session.token screens.tokens s))
              (wallet, s))
          idle
      ∙ ap (with_tokens p lower b screens wallet)
          (mint-refused screens.session.token screens.tokens s e h code)
      ∙ with_tokens-blocked screens wallet (blocked_by e screens.tokens)
          (b.mint_token screens.session.token deed_payload s).1 refl
