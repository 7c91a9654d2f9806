-- ===== src/Handlers/Caller.antt =====
-- standin-service/src/handlers.ts: `tokenAccount`, the caller behind `context.authorization`.
use mathlib.Core.Option
use finlabs_explore.Prelude.{Option, none, some, ◌==◌, if◌then◌else◌}
use finlabs_explore.Types.Account.{Account, Accounts}
use finlabs_explore.Accounts.{get_by_token}
use finlabs_explore.Envelope.{RequestContext, Response, fail, bearer_token}
use finlabs_explore.World.{Exec, gets, ◌>>=◌}
use finlabs_explore.World.Env.{Env}

-- `token ? store.getByToken(token) : undefined`
unfoldable pub caller_of : Accounts → Option RequestContext → Option Account
unfolding bearer_token get_by_token
caller_of accounts ctx =
    Option.bind (bearer_token ctx)
      λ token. if token == "" then none else get_by_token accounts token

-- `const account = tokenAccount(req, res); if (!account) return;` and what follows it.
unfoldable pub with_caller : Env → Option RequestContext → (Account → Exec Response) → Exec Response
unfolding caller_of
with_caller e ctx next = do
  caller ← gets (λ w. caller_of w.accounts ctx)
  elim caller [
    | none ↦ fail e ctx 401 "UNAUTHORIZED" "Missing or invalid context.authorization token"
    | some account ↦ next account
  ]
