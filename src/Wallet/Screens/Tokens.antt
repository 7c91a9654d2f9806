-- ===== src/Wallet/Screens/Tokens.antt =====
-- app/src/App.tsx: `Tokens`.
use mathlib.Core.Option
use finlabs_explore.Prelude.{
  String, Bool, true, false, Option, none, some, List, [], ◌∷◌, find, ◌==◌, if◌then◌else◌,
}
use finlabs_explore.Json.{text, end, field}
use finlabs_explore.Crypto.Packages.{Primitives}
use finlabs_explore.Types.Credential.{Vc, Identity}
use finlabs_explore.Types.TokenClass.{TokenClass}
use finlabs_explore.Types.Token.{TokenInstance}
use finlabs_explore.Handlers.Token.{MintPayload}
use finlabs_explore.Wallet.Crypto.{verify_embedded_credential}
use finlabs_explore.Wallet.Client.{
  Answer, answered, refused, Failure, api_error, other_error, error_text,
}
use finlabs_explore.Wallet.Backend.{Ask, ◌>>=◌, Backend}

pub record TokenScreen : Type 0 where
  pub token_class : Option TokenClass
  pub minted : Option TokenInstance
  pub busy : Bool
  pub blocked : Option String
  pub error : Option String

abbrev pub new_tokens : TokenScreen
new_tokens = record {
  token_class = none;
  minted = none;
  busy = false;
  blocked = none;
  error = none;
}

-- `Boolean(minted)`
unfoldable pub is_present : {A : Type 0} → Option A → Bool
is_present none = false
is_present (some a) = true

abbrev stored_class : Answer TokenClass → Option TokenClass
stored_class (answered tc) = some tc
stored_class (refused failure) = none

abbrev pub deed_payload : MintPayload
deed_payload = record {
  token_class = "PROP-DEED";
  initial_supply = "1";
  metadata_name = some "Deed to 123 Main St";
  content =
      some
        (field "assetId" (text "PROP-2026-001") (field "propertyAddress" (text "123 Main St") end));
}

-- `identities.find((i) => i.type === 'owner')?.id`
unfoldable pub owner_id : List Identity → Option String
owner_id identities = Option.map (λ i. i.id) (find (λ i. i.kind == "owner") identities)

-- `minted?.claims?.[0]`
unfoldable pub carried_claim : Option TokenInstance → Option Vc
carried_claim minted =
    Option.bind minted
      λ t. Option.bind t.claims λ claims. elim claims [ [] ↦ none | c ∷ cs ↦ some c ]

unfoldable pub carried_claim_valid : Primitives → Option TokenInstance → Option Bool
unfolding carried_claim
carried_claim_valid p minted = Option.map (verify_embedded_credential p) (carried_claim minted)

-- The `catch` of `mint`.
unfoldable pub refuse_mint : TokenScreen → Failure → TokenScreen
unfolding error_text
refuse_mint screen (api_error e) =
    if e.code == "COMPLIANCE_CHECK_FAILED"
    then record screen { minted = none; blocked = some e.message }
    else record screen { error = some (error_text (api_error e)) }
refuse_mint screen (other_error message) = record screen { error = some message }

-- `setBusy(true)`, `setBlocked(null)` and `setError(null)`, before the `try`.
unfoldable pub start_mint : TokenScreen → TokenScreen
start_mint screen = record screen { busy = true; blocked = none; error = none }

-- What `mint` makes of its answer, with the `finally`; an id is the call of `onMinted`.
unfoldable pub settle_mint : TokenScreen → Answer TokenInstance → TokenScreen × Option String
unfolding refuse_mint
settle_mint screen (answered t) = (record screen { minted = some t; busy = false }, some t.id)
settle_mint screen (refused failure) = (record (refuse_mint screen failure) { busy = false }, none)

module _ {σ : Type 0} (b : Backend σ) where
  unfoldable pub mount : σ → TokenScreen × σ
  mount s =
      let (r, s') = b.get_token_class "PROP-DEED" s in
      (record new_tokens { token_class = stored_class r }, s')

  -- The body of `mint`'s `try`.
  unfoldable pub mint_deed : (token : String) → Ask σ TokenInstance
  unfolding ◌>>=◌
  mint_deed token = do
    accepted ← b.mint_token token deed_payload
    b.get_token token accepted.token_id

  unfoldable pub mint : (token : String) → TokenScreen → σ → (TokenScreen × Option String) × σ
  unfolding start_mint mint_deed settle_mint
  mint token screen s = let (r, s') = mint_deed token s in (settle_mint (start_mint screen) r, s')
