-- ===== src/Wallet/Shapes/Sending.antt =====
-- A predicate on the responses that an action may return, with a rule for each way to build an action.
use finlabs_explore.Prelude.{
  String, ◌≡◌, refl, Bool, true, false, Option, none, some, ℕ, if◌then◌else◌,
}
use finlabs_explore.Types.Account.{Account}
use finlabs_explore.Envelope.{
  RequestContext, Response, Status, successful, failed, pending, accepted, ResponseError, respond,
  accept, fail,
}
use finlabs_explore.Envelope.Bodies.{Body}
use finlabs_explore.Handlers.Caller.{with_caller}
use finlabs_explore.World.{
  World, Outcome, returned, thrown, Exec, pure, throw, continue, caught, try_catch, ◌>>=◌,
}
use finlabs_explore.World.Env.{Env}
use finlabs_explore.Wallet.Screens.Tokens.{is_present}
use finlabs_explore.Wallet.Client.{Api}
use finlabs_explore.Wallet.Backend.Service.{
  as_availability, as_registration, as_profile, as_keys, as_signature, as_issuer, as_issued,
  as_verification, as_revocation, as_class, as_minted, as_token, as_tokens, as_transact, as_log,
  as_proof,
}

-- The `response` part has the shape that the function declares.
unfoldable pub fits : Api → Body → Bool
unfolding is_present
fits (Api.check_availability address) body = is_present (as_availability body)
fits (Api.create_account payload) body = is_present (as_registration body)
fits (Api.get_account token) body = is_present (as_profile body)
fits (Api.search_keys token) body = is_present (as_keys body)
fits (Api.sign key_reference hash) body = is_present (as_signature body)
fits Api.get_issuer body = is_present (as_issuer body)
fits (Api.issue_credential payload) body = is_present (as_issued body)
fits (Api.verify_credential credential) body = is_present (as_verification body)
fits (Api.revoke_credential id) body = is_present (as_revocation body)
fits (Api.get_token_class tc) body = is_present (as_class body)
fits (Api.mint_token token payload) body = is_present (as_minted body)
fits (Api.get_token token id) body = is_present (as_token body)
fits (Api.search_tokens token) body = is_present (as_tokens body)
fits (Api.transfer token id to) body = is_present (as_transact body)
fits (Api.get_transaction token tx_id) body = is_present (as_log body)
fits (Api.get_proof token tx_id) body = is_present (as_proof body)

-- A failure names its error, and a success has a body that passes.
abbrev pub is_sound : (Body → Bool) → Status → Option ResponseError → Body → Bool
is_sound ok successful error body = ok body
is_sound ok accepted error body = ok body
is_sound ok failed (some error) body = true
is_sound ok failed none body = false
is_sound ok pending error body = false

abbrev pub is_told : (Body → Bool) → Response → Bool
is_told ok r = is_sound ok r.context.status r.context.error r.response

-- What is returned, if anything is, is told.
abbrev pub is_told_outcome : (Body → Bool) → Outcome Response → Bool
is_told_outcome ok (returned r) = is_told ok r
is_told_outcome ok (thrown message) = true

pub record Sends (ok : Body → Bool) (m : Exec Response) : Type 0 where
  pub at : (w : World) → is_told_outcome ok (m w).0 ≡ true

module _ {ok : Body → Bool} where
  pub Sends-throw : (message : String) → Sends ok (throw message)
  unfolding throw
  Sends-throw message = record { at = λ w. refl }

  pub Sends-pure : (r : Response) → is_told ok r ≡ true → Sends ok (pure r)
  unfolding pure
  Sends-pure r h = record { at = λ w. h }

  pub Sends-if :
      (b : Bool) (m n : Exec Response) → Sends ok m → Sends ok n → Sends ok (if b then m else n)
  Sends-if true m n hm hn = hm
  Sends-if false m n hm hn = hn

  pub Sends-option :
      {A : Type 0} (o : Option A) (m : Exec Response) (f : A → Exec Response)
      → Sends ok m
      → ((a : A) → Sends ok (f a))
      → Sends ok (elim o [ none ↦ m | some a ↦ f a ])
  Sends-option none m f hm hf = hm
  Sends-option (some a) m f hm hf = hf a

  Sends-continue :
      {A : Type 0} (r : Outcome A) (f : A → Exec Response)
      → ((a : A) → Sends ok (f a))
      → Sends ok (λ w. continue r f w)
  Sends-continue (returned a) f hf = hf a
  Sends-continue (thrown message) f hf = record { at = λ w. refl }

  pub Sends-bind :
      {A : Type 0} (m : Exec A) (f : A → Exec Response)
      → ((a : A) → Sends ok (f a))
      → Sends ok (m >>= f)
  unfolding ◌>>=◌
  Sends-bind m f hf = record { at = λ w. let (r, w') = m w in (Sends-continue r f hf).at w' }

  Sends-caught :
      (handler : String → Exec Response) (r : Outcome Response) (w : World)
      → is_told_outcome ok r ≡ true
      → ((message : String) → Sends ok (handler message))
      → is_told_outcome ok (caught handler r w).0 ≡ true
  Sends-caught handler (returned a) w h hh = h
  Sends-caught handler (thrown message) w h hh = (hh message).at w

  pub Sends-try_catch :
      (m : Exec Response) (handler : String → Exec Response)
      → Sends ok m
      → ((message : String) → Sends ok (handler message))
      → Sends ok (try_catch m handler)
  unfolding try_catch
  Sends-try_catch m handler hm hh = record {
    at = λ w. let (r, w') = m w in Sends-caught handler r w' (hm.at w) hh;
  }

module _ (e : Env) {ok : Body → Bool} (ctx : Option RequestContext) where
  pub Sends-fail : (http : ℕ) (code message : String) → Sends ok (fail e ctx http code message)
  unfolding fail
  Sends-fail http code message = record { at = λ w. refl }

  pub Sends-respond : (body : Body) (http : ℕ) → ok body ≡ true → Sends ok (respond e ctx body http)
  unfolding respond
  Sends-respond body http h = record { at = λ w. h }

  pub Sends-accept : (body : Body) (id : String) → ok body ≡ true → Sends ok (accept e ctx body id)
  unfolding accept
  Sends-accept body id h = record { at = λ w. h }

  pub Sends-with_caller :
      (next : Account → Exec Response)
      → ((a : Account) → Sends ok (next a))
      → Sends ok (with_caller e ctx next)
  unfolding with_caller
  Sends-with_caller next h = Sends-bind _ _ (λ o. Sends-option o _ _ (Sends-fail _ _ _) h)
