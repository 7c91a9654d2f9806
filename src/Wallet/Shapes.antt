-- ===== src/Wallet/Shapes.antt =====
-- What the functions of `api` in app/src/lib/client.ts get from the service of standin-service/src: the shape
-- that they declare, or an error with the service's code and message.
pub mod Sending
pub mod Handlers
use mathlib.Core.Option
use finlabs_explore.Prelude.{
  ℕ, String, ◌≡◌, refl, sym, subst, Bool, true, false, ◌&&◌, ◌||◌, Bool-cases, ◌⊎◌, inl, inr,
  Option, none, some,
}
use finlabs_explore.Envelope.{
  RequestContext, Response, Status, successful, failed, pending, accepted, ResponseError, fail,
}
use finlabs_explore.Envelope.Bodies.{Body}
use finlabs_explore.App.{
  Request, Rejection, Validator, serve, admit, finish, judge, on_error, route, handle,
}
use finlabs_explore.World.{World, Outcome, returned, thrown, Exec, pure}
use finlabs_explore.World.Env.{Env}
use finlabs_explore.Wallet.Client
use finlabs_explore.Wallet.Client.{
  Api, path, call_of, Answer, answered, refused, ApiError, api_error, read_body, status_text,
  read_reply, reply_of, request_of,
}
use finlabs_explore.Wallet.Backend.Service.{post, read_outcome}
use Sending.{Sends, Sends-fail, Sends-pure, fits, is_sound, is_told, is_told_outcome}
use Handlers.{handle-Sends}

-- The action returns a response, and the response is told.
abbrev IsTold : (Body → Bool) → Outcome Response → Type 0
IsTold ok outcome = (r : Response) × (outcome ≡ returned r) × (is_told ok r ≡ true)

module _ (e : Env) (v : Validator) (a : Api) where
  on_error-IsTold :
      (ctx : Option RequestContext) (error : Rejection) (w : World)
      → IsTold (fits a) (on_error e ctx error w).0
  unfolding on_error fail
  on_error-IsTold ctx error w = (_, refl, refl)

  judge-IsTold :
      (request : Request) (r : Response) (o : Option Rejection) (w : World)
      → is_told (fits a) r ≡ true
      → IsTold (fits a) (judge e request r o w).0
  unfolding judge pure
  judge-IsTold request r none w h = (r, refl, h)
  judge-IsTold request r (some error) w h = on_error-IsTold request.context error w

  finish-IsTold :
      (request : Request) (outcome : Outcome Response) (w : World)
      → is_told_outcome (fits a) outcome ≡ true
      → IsTold (fits a) (finish e v request outcome w).0
  unfolding finish
  finish-IsTold request (returned r) w h = judge-IsTold request r (v.reject_response request r) w h
  finish-IsTold request (thrown message) w h = on_error-IsTold request.context _ w

  admit-IsTold :
      (request : Request) (o : Option Rejection) (w : World)
      → request.call ≡ call_of a
      → IsTold (fits a) (admit e v request o w).0
  unfolding admit
  admit-IsTold request (some error) w at = on_error-IsTold request.context error w
  admit-IsTold request none w at =
      let (outcome, w') = handle e request.context request.call w in
      finish-IsTold request outcome w' (
        subst (λ call. is_told_outcome (fits a) (handle e request.context call w).0 ≡ true) (sym at)
          ((handle-Sends e request.context a).at w))

-- What `post` makes of a response that is told.
abbrev IsRead : (Body → Bool) → Answer Body → Type 0
IsRead ok answer =
    ((body : Body) × (answer ≡ answered body) × (ok body ≡ true))
    ⊎ ((error : ApiError) × (answer ≡ refused (api_error error)))

read_body-IsRead :
    (ok : Body → Bool) (http : ℕ) (status : Status) (error : Option ResponseError) (body : Body)
    → is_sound ok status error body ≡ true
    → IsRead ok (
        read_body http (
          some (record {
            status = some (status_text status);
            code = Option.map (λ x. x.code) error;
            message = Option.map (λ x. x.message) error;
            response = body;
          })))
unfolding read_body
read_body-IsRead ok http successful error body h = inl (body, refl, h)
read_body-IsRead ok http accepted error body h = inl (body, refl, h)
read_body-IsRead ok http failed (some error) body h = inr (_, refl)
read_body-IsRead ok http failed none body h = cc h
read_body-IsRead ok http pending error body h = cc h

read_outcome-IsRead :
    (ok : Body → Bool) (outcome : Outcome Response)
    → IsTold ok outcome
    → IsRead ok (read_outcome outcome)
unfolding read_outcome read_reply reply_of
read_outcome-IsRead ok outcome (r, at, h) =
    subst (λ o. IsRead ok (read_outcome o)) (sym at)
      (read_body-IsRead ok r.http r.context.status r.context.error r.response h)

route-call_of : (a : Api) → route (call_of a) ≡ path a
unfolding route call_of path
route-call_of (Api.check_availability address) = refl
route-call_of (Api.create_account payload) = refl
route-call_of (Api.get_account token) = refl
route-call_of (Api.search_keys token) = refl
route-call_of (Api.sign key_reference hash) = refl
route-call_of Api.get_issuer = refl
route-call_of (Api.issue_credential payload) = refl
route-call_of (Api.verify_credential credential) = refl
route-call_of (Api.revoke_credential id) = refl
route-call_of (Api.get_token_class name) = refl
route-call_of (Api.mint_token token payload) = refl
route-call_of (Api.get_token token id) = refl
route-call_of (Api.search_tokens token) = refl
route-call_of (Api.transfer token id to) = refl
route-call_of (Api.get_transaction token tx_id) = refl
route-call_of (Api.get_proof token tx_id) = refl

-- Every function of the client's api posts to the path under which the service registers the handler
-- for its payload, and in every state of the service, under every validator, it gets a response of the
-- shape that it declares or throws an ApiError.
pub post-IsRead :
    (e : Env) (v : Validator) (stamp : World → String × String) (a : Api) (w : World)
    → (route (call_of a) ≡ path a)
      × (((body : Body) × ((post e v stamp a w).0 ≡ answered body) × (fits a body ≡ true))
          ⊎ ((error : ApiError) × ((post e v stamp a w).0 ≡ refused (api_error error))))
unfolding post serve request_of
post-IsRead e v stamp a w =
    let request : Request = request_of (stamp w).0 (stamp w).1 a in
    let outcome = (serve e v request w).0 in
    (
      route-call_of a,
      read_outcome-IsRead (fits a) outcome
          (admit-IsTold e v a request (v.reject_request request) w refl),
    )
