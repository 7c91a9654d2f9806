-- ===== src/App/Ownership.antt =====
-- In every state that the service can reach, the owner index of standin-service/src/tokens.ts agrees
-- with the tokens.
use mathlib.Core.List.{Memᴰ}
use finlabs_explore.Prelude.{String, ◌≡◌, ◌↔◌, refl, some, arith}
use finlabs_explore.Js.Dict.{get, empty}
use finlabs_explore.Js.StrSet.{has}
use finlabs_explore.Js.StrSet
use finlabs_explore.Types.Token.{TokenInstance}
use finlabs_explore.Credentials.Keeping.{issue_credential-Keeps, revoke_credential-Keeps}
use finlabs_explore.Accounts.{create_account}
use finlabs_explore.TokenClasses.{register_token_class}
use finlabs_explore.Tokens.{owner_of, tokens_for_owner}
use finlabs_explore.Tokens.Minting.{mint_token-Keeps}
use finlabs_explore.Tokens.Ownership.{
  IsIndexed, IsIndexed-IsSupplied, later, mint_compliant-IsIndexed, transfer_token-IsIndexed,
}
use finlabs_explore.Tokens.Listing.{tokens_for_owner-IsIndexed}
use finlabs_explore.App.{Validator, boot}
use finlabs_explore.App.Invariants.{IsInvariant}
use finlabs_explore.App.Induction.{Reachable, Reachable-induction}
use finlabs_explore.World.{World}
use finlabs_explore.World.Env.{Env, IsFaithful}

module _ (e : Env) where
  pub IsIndexed-IsInvariant : IsFaithful e → IsInvariant e (IsIndexed e)
  unfolding create_account register_token_class
  IsIndexed-IsInvariant f = record {
    supplied = IsIndexed-IsSupplied e;
    creates = λ input. record { at = λ w h. later e w.uuids _ w.tokens (omega arith) h };
    issues = issue_credential-Keeps e (IsIndexed-IsSupplied e) (λ w cs h. h);
    revokes = revoke_credential-Keeps e (IsIndexed-IsSupplied e) (λ w cs h. h);
    registers = λ input. record { at = λ w h. h };
    mints = λ input.
        mint_token-Keeps e (IsIndexed-IsSupplied e) input (mint_compliant-IsIndexed e f input);
    transfers = transfer_token-IsIndexed e;
  }

  pub boot-IsIndexed : IsIndexed e (boot e)
  unfolding boot get has empty StrSet.empty
  boot-IsIndexed = record {
    agrees = λ owner id. refl;
    keyed = λ id t p. cc p;
    drawn = λ id t p. absurd (cc p);
  }

  -- Given an outside that is faithful: in every state that the service can reach, whatever its validator
  -- lets through, the index of owners
  -- lists a token's id under an owner exactly where the token names that owner; each token stands under
  -- its own id, which was made from one of the UUIDs drawn so far.
  pub Reachable-IsIndexed :
      IsFaithful e → (v : Validator) (w : World) → Reachable e v w → IsIndexed e w
  Reachable-IsIndexed f v w r = Reachable-induction e v (IsIndexed-IsInvariant f) boot-IsIndexed r

  -- Given an outside that is faithful: in every state that the service can reach, `tokensForOwner` lists a token if and only if the token is
  -- stored and its first identity of type `owner` is the owner asked for.
  pub tokens_for_owner-Reachable :
      IsFaithful e
      → (v : Validator) (w : World) (owner : String) (t : TokenInstance) → Reachable e v w
      → Memᴰ t (tokens_for_owner w.tokens owner)
        ↔ ((get w.tokens.by_id t.id ≡ some t) × (owner_of t ≡ some owner))
  tokens_for_owner-Reachable f v w owner t r =
      tokens_for_owner-IsIndexed e w.uuids w.tokens owner t (Reachable-IsIndexed f v w r)
