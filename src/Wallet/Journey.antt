-- ===== src/Wallet/Journey.antt =====
-- The journey of app/src/App.tsx beside the screens that report to it.
pub mod Idle
pub mod Steps
use finlabs_explore.Prelude.{
  String, ◌≡◌, refl, ap, sym, subst, ◌∙◌, Bool, true, false, not, ◌||◌, ◌==◌, Bool-cases, inl, inr,
  Option, none, some, List, [], ◌∷◌,
}
use finlabs_explore.Crypto.Packages.{Primitives}
use finlabs_explore.Crypto.{sha256_hex}
use finlabs_explore.Types.Token.{TokenInstance}
use finlabs_explore.Wallet.Types.{SignatureResponse}
use finlabs_explore.Wallet.Client.{Answer, answered, refused, api_error, other_error}
use finlabs_explore.Wallet.Backend.{Backend}
use finlabs_explore.Wallet.Screens.Create
use finlabs_explore.Wallet.Screens.Create.{
  Session, CreateForm, settle_create, can_create, create_session,
}
use finlabs_explore.Wallet.Screens.Sign
use finlabs_explore.Wallet.Screens.Sign.{SignScreen, settle_sign, can_sign}
use finlabs_explore.Wallet.Screens.Credentials
use finlabs_explore.Wallet.Screens.Credentials.{CredentialScreen, is_valid, can_issue, can_revoke}
use finlabs_explore.Wallet.Screens.Tokens
use finlabs_explore.Wallet.Screens.Tokens.{TokenScreen, is_present, settle_mint, refuse_mint}
use finlabs_explore.Wallet.Screens.Transfer
use finlabs_explore.Wallet.Screens.Transfer.{TransferScreen, new_transfer, can_transfer, is_proved}
use finlabs_explore.Wallet.Shell.{
  Journey, empty_journey, Stage, at_credential, at_token, at_transfer, at_proof, stage_of,
  set_stage, same_bool, mark, Screens, Page, landing, signed_in, Wallet, new_wallet, reset,
  report_credential, report_token, report_transfer, Event, type_address, type_name,
  pick_entity_type, press_create, type_message, type_verify_text, press_sign, press_issue,
  press_reverify, press_revoke, press_mint, type_recipient, toggle_tampered, press_transfer,
  press_reset, open_screens, after_create, on_form, with_sign, with_credentials, with_transfer,
  with_tokens, on_minted, is_same_id, when, on_screens, on_page, step, play,
}
use Idle.{
  IsIdleCredentials, IsIdleTransfer, implies, issue-IsIdle, reverify-IsIdle, revoke-IsIdle,
  mount-IsIdle, settle_mint-busy, renew-IsIdle, transfer-IsIdle,
}

same_bool_lem : (a b : Bool) → same_bool a b ≡ true → b ≡ a
same_bool_lem true b h = h
same_bool_lem false true h = sym h
same_bool_lem false false h = refl

set_stage-stage_of : (stage : Stage) (j : Journey) → set_stage stage (stage_of stage j) j ≡ j
set_stage-stage_of at_credential j = refl
set_stage-stage_of at_token j = refl
set_stage-stage_of at_transfer j = refl
set_stage-stage_of at_proof j = refl

-- The shortcut for an unchanged value changes nothing.
pub mark_lem :
    (stage : Stage) (value : Bool) (j : Journey) → mark stage value j ≡ set_stage stage value j
unfolding mark
mark_lem stage value j = elim (Bool-cases (same_bool (stage_of stage j) value)) [
  | inl same ↦ rw same (
      sym (set_stage-stage_of stage j)
      ∙ ap (λ b. set_stage stage b j) (sym (same_bool_lem (stage_of stage j) value same)))
  | inr other ↦ rw other refl
]

-- The journey that the screens show.
abbrev pub journey_of : Primitives → Screens → Journey
journey_of p screens = record {
  credential = is_valid screens.credentials.result;
  token = is_present screens.tokens.minted;
  transfer = is_present screens.transfer.proof;
  proof = is_proved p screens.transfer;
}

-- The journey is what the screens show, no screen is busy, and a token that is shown as minted is the one
-- that `Transfer` was told of.
abbrev pub IsConsistentAt : Primitives → Page → Wallet → Type 0
IsConsistentAt p (landing form) wallet =
    (wallet.journey ≡ empty_journey) × (wallet.minted_id ≡ none) × (form.busy ≡ false)
IsConsistentAt p (signed_in screens) wallet =
    (wallet.journey ≡ journey_of p screens)
    × IsIdleCredentials screens.credentials
    × IsIdleTransfer screens.transfer
    × (screens.tokens.busy ≡ false)
    × (screens.sign.busy ≡ false)
    × (implies (is_present screens.tokens.minted) (is_present wallet.minted_id) ≡ true)

unfoldable pub IsConsistent : Primitives → Wallet → Type 0
IsConsistent p wallet = IsConsistentAt p wallet.page wallet

pub settle_sign-busy :
    (screen : SignScreen) (answer : Answer SignatureResponse)
    → (settle_sign screen answer).busy ≡ false
unfolding settle_sign
settle_sign-busy screen (answered r) = refl
settle_sign-busy screen (refused failure) = refl

pub settle_create-busy :
    (form : CreateForm) (answer : Answer Session) → (settle_create form answer).1.busy ≡ false
unfolding settle_create
settle_create-busy form (answered session) = refl
settle_create-busy form (refused failure) = refl

module _ (p : Primitives) where
  pub report_credential_lem :
      (screens : Screens) (credentials : CredentialScreen) (j : Journey)
      → j ≡ journey_of p screens
      → report_credential credentials j
        ≡ journey_of p (record screens { credentials = credentials })
  unfolding report_credential
  report_credential_lem screens credentials j h = rw (mark_lem, h) refl

  pub report_token_lem :
      (screens : Screens) (tokens : TokenScreen) (j : Journey)
      → j ≡ journey_of p screens
      → report_token tokens j ≡ journey_of p (record screens { tokens = tokens })
  unfolding report_token
  report_token_lem screens tokens j h = rw (mark_lem, h) refl

  pub report_transfer_lem :
      (screens : Screens) (transfer : TransferScreen) (j : Journey)
      → j ≡ journey_of p screens
      → report_transfer p transfer j ≡ journey_of p (record screens { transfer = transfer })
  unfolding report_transfer
  report_transfer_lem screens transfer j h = rw (mark_lem, mark_lem, h) refl

  pub new_wallet-IsConsistent : IsConsistent p new_wallet
  unfolding IsConsistent
  new_wallet-IsConsistent = (refl, refl, refl)

pub implied : (a : Bool) → implies a true ≡ true
implied true = refl
implied false = refl

pub is_same_id-is_present :
    {σ : Type 0} (p : Primitives) (lower : String → String) (b : Backend σ) (id : String)
    (o : Option String)
    → is_same_id p lower b id o ≡ true
    → is_present o ≡ true
unfolding is_present
is_same_id-is_present p lower b id none h = cc h
is_same_id-is_present p lower b id (some old) h = refl

-- A token that is shown after a mint was passed on, or shown before it.
pub settle_mint-told :
    (screen : TokenScreen) (answer : Answer TokenInstance) (told : Bool)
    → implies (is_present screen.minted) told ≡ true
    → implies
        (is_present (settle_mint screen answer).0.minted)
        (is_present (settle_mint screen answer).1 || told)
      ≡ true
unfolding settle_mint refuse_mint is_present
settle_mint-told screen (answered t) told h = refl
settle_mint-told screen (refused (other_error message)) told h = h
settle_mint-told screen (refused (api_error e)) told h =
    elim (Bool-cases (e.code == "COMPLIANCE_CHECK_FAILED")) [
      | inl compliance ↦ rw compliance refl
      | inr other ↦ rw other h
    ]
