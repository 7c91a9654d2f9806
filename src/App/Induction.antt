-- ===== src/App/Induction.antt =====
-- What holds before and after every request: an invariant is kept by every request, and holds in every
-- state that the service can reach.
use finlabs_explore.Prelude.{◌≡◌, Option, none, some, subst, sym}
use finlabs_explore.Envelope.{RequestContext, Response}
use finlabs_explore.App.{
  handle, Request, Validator, Rejection, on_error, judge, finish, admit, serve, boot,
}
use finlabs_explore.World.{World, Outcome, returned, thrown}
use finlabs_explore.World.Keeps.{Keeps, Keeps-pure}
use finlabs_explore.World.Env.{Env}
use finlabs_explore.App.Invariants.{IsInvariant, fail-Keeps, handle-Keeps}

module _ (e : Env) {P : World → Type 0} (inv : IsInvariant e P) (v : Validator) where
  on_error-Keeps :
      (ctx : Option RequestContext) (error : Rejection) → Keeps P (on_error e ctx error)
  unfolding on_error
  on_error-Keeps ctx error = fail-Keeps e inv ctx _ _ _

  judge-Keeps :
      (request : Request) (response : Response) (o : Option Rejection)
      → Keeps P (judge e request response o)
  unfolding judge
  judge-Keeps request response none = Keeps-pure response
  judge-Keeps request response (some error) = record {
    at = (on_error-Keeps request.context error).at;
  }

  finish-Keeps : (request : Request) (r : Outcome Response) → Keeps P (finish e v request r)
  unfolding finish
  finish-Keeps request (returned response) = judge-Keeps request response _
  finish-Keeps request (thrown message) = on_error-Keeps request.context _

  admit-Keeps : (request : Request) (o : Option Rejection) → Keeps P (admit e v request o)
  unfolding admit
  admit-Keeps request (some error) = on_error-Keeps request.context error
  admit-Keeps request none = record {
    at = λ w h.
        let (outcome, w') = handle e request.context request.call w in
        (finish-Keeps request outcome).at w'
          ((handle-Keeps e inv request.context request.call).at w h);
  }

  -- Every request keeps an invariant, whatever the validator lets through, also where a handler throws.
  pub serve-Keeps : (request : Request) → Keeps P (serve e v request)
  unfolding serve
  serve-Keeps request = admit-Keeps request (v.reject_request request)

-- One request after another, from the state in which the process starts.
pub data Reachable (e : Env) (v : Validator) : World → Type 0 where
  booted : {w : World} → w ≡ boot e → Reachable e v w
  served :
      {w w' : World} (request : Request)
      → Reachable e v w
      → w' ≡ (serve e v request w).1
      → Reachable e v w'

pub Reachable-induction :
    (e : Env) (v : Validator) {P : World → Type 0}
    → IsInvariant e P
    → P (boot e)
    → {w : World} → Reachable e v w
    → P w
Reachable-induction e v {P} inv start (booted same) = subst P (sym same) start
Reachable-induction e v {P} inv start (served {w} request before same) =
    subst P (sym same)
      ((serve-Keeps e inv v request).at w (Reachable-induction e v inv start before))
