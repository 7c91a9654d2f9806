-- ===== src/App/Authorization.antt =====
-- The requests of standin-service/src/handlers.ts that need `context.authorization`.
use mathlib.Core.Option
use finlabs_explore.Prelude.{
  suc, String, Bool, true, false, ◌≡◌, refl, ◌⊎◌, inl, inr, none, some, Option, Bool-cases,
  Option-cases, ◌==◌, if◌then◌else◌,
}
use finlabs_explore.Js.Text.{strip_prefix}
use finlabs_explore.Types.Account.{Accounts}
use finlabs_explore.Accounts.{get_by_token}
use finlabs_explore.Envelope.{RequestContext, Response, fail, bearer_token}
use finlabs_explore.Handlers.Account.{account_get, keys_search}
use finlabs_explore.Handlers.Caller.{caller_of, with_caller}
use finlabs_explore.Handlers.Token.{token_mint, token_search}
use finlabs_explore.Handlers.Movement.{token_transact}
use finlabs_explore.App.{Call, profile, keys, mint, search_tokens, transact, handle}
use finlabs_explore.World.{World, Outcome, returned, Exec, gets, ◌>>=◌}
use finlabs_explore.World.Env.{Env}

abbrev pub needs_caller : Call → Bool
needs_caller profile = true
needs_caller keys = true
needs_caller (mint payload) = true
needs_caller search_tokens = true
needs_caller (transact payload) = true
needs_caller _ = false

-- A refusal: the status 401 with its code, one UUID and one reading of the clock for the envelope, and
-- nothing else.
pub record IsUnauthorized (w : World) (r : Outcome Response × World) : Type 0 where
  pub response : Response
  pub answered : r.0 ≡ returned response
  pub status : response.http ≡ 401
  pub reason : Option.map (λ x. x.code) response.context.error ≡ some "UNAUTHORIZED"
  pub only_drawn : r.1 ≡ record w { uuids = suc w.uuids; readings = suc w.readings }

-- The texts that a request may mean as its access token: its authorization, and what follows `Bearer ` in it.
abbrev pub Offers : Option RequestContext → String → Type 0
Offers none token = ⊥
Offers (some ctx) token =
    (ctx.authorization ≡ some token)
    ⊎ ((raw : String) × (ctx.authorization ≡ some raw) × (strip_prefix "Bearer " raw ≡ some token))

-- None of them leads to an account.
abbrev pub IsUnknown : Accounts → Option RequestContext → Type 0
IsUnknown accounts ctx = (token : String) → Offers ctx token → get_by_token accounts token ≡ none

unknown_token :
    (accounts : Accounts) (token : String)
    → get_by_token accounts token ≡ none
    → (if token == "" then none else get_by_token accounts token) ≡ none
unknown_token accounts token h = elim (Bool-cases (token == "")) [
  | inl empty ↦ rw empty refl
  | inr filled ↦ rw filled h
]

caller_of-IsUnknown :
    (accounts : Accounts) (ctx : Option RequestContext)
    → IsUnknown accounts ctx
    → caller_of accounts ctx ≡ none
unfolding caller_of bearer_token Option.bind
caller_of-IsUnknown accounts none h = refl
caller_of-IsUnknown accounts (some ctx) h = elim (Option-cases ctx.authorization) [
  | inl missing ↦ rw missing refl
  | inr (raw, there) ↦ elim (Bool-cases (raw == "")) [
    | inl empty ↦ rw (there, empty) refl
    | inr filled ↦ elim (Option-cases (strip_prefix "Bearer " raw)) [
      | inl plain ↦ rw (there, filled, plain) (unknown_token accounts raw (h raw (inl there)))
      | inr (token, scheme) ↦
          rw (there, filled, scheme)
            (unknown_token accounts token (h token (inr (raw, there, scheme))))
    ]
  ]
]

with_caller-IsUnauthorized :
    (e : Env) (ctx : Option RequestContext) (next : _ → Exec Response) (w : World)
    → IsUnknown w.accounts ctx
    → IsUnauthorized w (with_caller e ctx next w)
unfolding with_caller gets ◌>>=◌ fail
with_caller-IsUnauthorized e ctx next w h =
    rw (caller_of-IsUnknown w.accounts ctx h)
      (record { response = _; answered = refl; status = refl; reason = refl; only_drawn = refl })

-- If neither the request's authorization nor what follows `Bearer ` in it is the token of an account, or
-- there is no authorization: reading one's account or keys, minting, listing one's tokens and transferring
-- are answered with status 401 and code UNAUTHORIZED, and nothing has changed but that one UUID and one
-- reading of the clock have been drawn.
pub handle-IsUnauthorized :
    (e : Env) (ctx : Option RequestContext) (call : Call) (w : World)
    → needs_caller call ≡ true
    → IsUnknown w.accounts ctx
    → IsUnauthorized w (handle e ctx call w)
unfolding handle account_get keys_search token_mint token_search token_transact
handle-IsUnauthorized e ctx profile w needs h = with_caller-IsUnauthorized e ctx _ w h
handle-IsUnauthorized e ctx keys w needs h = with_caller-IsUnauthorized e ctx _ w h
handle-IsUnauthorized e ctx (mint payload) w needs h = with_caller-IsUnauthorized e ctx _ w h
handle-IsUnauthorized e ctx search_tokens w needs h = with_caller-IsUnauthorized e ctx _ w h
handle-IsUnauthorized e ctx (transact payload) w needs h = with_caller-IsUnauthorized e ctx _ w h
handle-IsUnauthorized e ctx _ w needs h = absurd (cc needs)
