-- ===== src/Wallet/Answering.antt =====
-- The wallet's `api` over standin-service/src: what a request that is let through and handled answers.
use mathlib.Core.Option
use text.Mathlib.TextLemmas.{cons-append}
use finlabs_explore.Prelude.{
  [], ◌∷◌, String, Char, suc, subst, Bool-cases, inl, inr, ◌≡◌, refl, ap, sym, ◌∙◌, true, false,
  Option, none, some, ◌==◌, eq_iff, ℕ,
}
use finlabs_explore.Js.Text.{◌+ₛ◌, strip_prefix-append}
use finlabs_explore.Types.Account.{Account, NewAccount, CreatedAccount}
use finlabs_explore.Accounts.{address_taken, get_by_token, create_account}
use finlabs_explore.Envelope.{RequestContext, Response, respond, bearer_token}
use finlabs_explore.Envelope.Bodies.{
  Body, availability, registration, profile, key_list, AccountKeyInfo,
}
use finlabs_explore.Handlers.Account.{
  valid_address, account_create, check_availability, account_get, keys_search,
}
use finlabs_explore.Handlers.Caller.{caller_of, with_caller}
use finlabs_explore.App.{Request, Validator, serve, admit, finish, judge, handle}
use finlabs_explore.World.{World, Outcome, returned, thrown, Exec, throw, gets, pure, continue}
use finlabs_explore.World
use finlabs_explore.World.Env.{Env}
use finlabs_explore.Wallet.Client
use finlabs_explore.Wallet.Client.{
  Api, Answer, answered, request_of, call_of, caller_token, read_reply, read_body, reply_of,
}
use finlabs_explore.Wallet.Backend.Service.{read_outcome, read_as, typed, post, post_as}
use finlabs_explore.Wallet.Signing.{LetsThrough}

pub prefixed-filled : (c : Char) (s t : String) → (String.◌∷◌ c s +ₛ t == "") ≡ false
prefixed-filled c s t = elim (Bool-cases (String.◌∷◌ c s +ₛ t == "")) [
  | inl empty ↦
      let no_text : String.◌∷◌ c (s +ₛ t) ≡ "" = sym (cons-append c s t) ∙ (eq_iff _ _).0 empty in
      absurd (cc no_text)
  | inr filled ↦ filled
]

abbrev created_token : Outcome CreatedAccount → String
created_token (returned c) = c.access_token
created_token (thrown message) = ""

pub access_token-filled :
    (e : Env) (input : NewAccount) (w w' : World) (c : CreatedAccount)
    → create_account e input w ≡ (returned c, w')
    → (c.access_token == "") ≡ false
unfolding create_account
access_token-filled e input w w' c h =
    subst (λ s. (s == "") ≡ false) (ap (λ r. created_token r.0) h)
      (prefixed-filled "s" "tandin_" (e.uuid (suc w.uuids)))

abbrev pub key_of : Account → AccountKeyInfo
key_of account = record {
  key_id = account.key_id;
  public_key_multibase = account.public_key_multibase;
  key_type = "Ed25519VerificationKey2020";
  purpose = "authentication" ∷ "assertion" ∷ [];
  status = "active";
  is_primary = true;
  created_at = account.created_at;
}

-- A response that is let through is the answer, with its state.
finish-through :
    (e : Env) (v : Validator) (request : Request) (body : Body) (http : ℕ) (w : World)
    → ((response : Response) → v.reject_response request response ≡ none)
    → finish e v request
        (respond e request.context body http w).0
        (respond e request.context body http w).1
      ≡ respond e request.context body http w
unfolding finish judge pure respond
finish-through e v request body http w after = rw after refl

serve-through :
    (e : Env) (v : Validator) (request : Request) (body : Body) (http : ℕ) (w w' : World)
    → LetsThrough v
    → handle e request.context request.call w ≡ respond e request.context body http w'
    → serve e v request w ≡ respond e request.context body http w'
unfolding serve admit
serve-through e v request body http w w' (before, after) h =
    ap (λ o. admit e v request o w) (before request)
    ∙ ap (λ r. finish e v request r.0 r.1) h
    ∙ finish-through e v request body http w' (after request)

module _ (e : Env) (v : Validator) (stamp : World → String × String) (through : LetsThrough v) where
  -- The state after a response.
  abbrev answered_at : Api → World → Body → ℕ → World → World
  answered_at a w body http w' =
      (respond e (request_of (stamp w).0 (stamp w).1 a).context body http w').1

  post-through :
      (a : Api) (w : World) (body : Body) (http : ℕ) (w' : World)
      → handle e (request_of (stamp w).0 (stamp w).1 a).context (call_of a) w
        ≡ respond e (request_of (stamp w).0 (stamp w).1 a).context body http w'
      → post e v stamp a w ≡ (answered body, answered_at a w body http w')
  unfolding post request_of read_outcome read_reply reply_of read_body respond
  post-through a w body http w' h =
      ap (λ r. (read_outcome r.0, r.1))
        (serve-through e v (request_of (stamp w).0 (stamp w).1 a) body http w w' through h)

  answered_at-accounts :
      (a : Api) (w : World) (body : Body) (http : ℕ) (w' : World)
      → (answered_at a w body http w').accounts ≡ w'.accounts
  unfolding respond
  answered_at-accounts a w body http w' = refl

  -- The token that the client sends is the one that the service reads.
  pub caller-known :
      (ts msg_id id token : String) (account : Account) (w : World)
      → (token == "") ≡ false
      → get_by_token w.accounts token ≡ some account
      → caller_of w.accounts (some (Client.context ts msg_id id (some token))) ≡ some account
  unfolding caller_of bearer_token Client.context Option.bind
  caller-known ts msg_id id token account w filled known =
      rw (filled, prefixed-filled "B" "earer " token, strip_prefix-append, filled) known

  pub check-free :
      (ctx : Option RequestContext) (address : String) (w : World)
      → address_taken w.accounts address ≡ false
      → handle e ctx (call_of (Api.check_availability address)) w
        ≡ respond e ctx (availability true) 200 w
  unfolding handle call_of check_availability World.◌>>=◌ gets
  check-free ctx address w free = rw free refl

  pub create-valid :
      (ctx : Option RequestContext) (input : NewAccount) (w w' : World) (c : CreatedAccount)
      → valid_address input.address ≡ true
      → address_taken w.accounts input.address ≡ false
      → create_account e input w ≡ (returned c, w')
      → handle e ctx (call_of (Api.create_account input)) w
        ≡ respond e ctx (registration c.access_token "Bearer" 3600 false) 201 w'
  unfolding handle call_of account_create World.◌>>=◌ gets
  create-valid ctx input w w' c valid free made =
      rw (valid, free)
        (ap
          (λ r.
            continue r.0
              (λ created. respond e ctx (registration created.access_token "Bearer" 3600 false) 201)
              r.1)
          made)

  pub profile-known :
      (ctx : Option RequestContext) (token : String) (account : Account) (w : World)
      → caller_of w.accounts ctx ≡ some account
      → handle e ctx (call_of (Api.get_account token)) w
        ≡ respond e ctx (profile account.did account.address account.name account.entity_type) 200 w
  unfolding handle call_of account_get with_caller World.◌>>=◌ gets
  profile-known ctx token account w known = rw known refl

  pub keys-known :
      (ctx : Option RequestContext) (token : String) (account : Account) (w : World)
      → caller_of w.accounts ctx ≡ some account
      → handle e ctx (call_of (Api.search_keys token)) w
        ≡ respond e ctx (key_list (key_of account ∷ [])) 200 w
  unfolding handle call_of keys_search with_caller World.◌>>=◌ gets
  keys-known ctx token account w known = rw known refl

  -- A call whose request is handled answers with the handler's body.
  pub ask-through :
      {T : Type 0} (shape : Body → Option T) (t : T) (a : Api) (w : World) (body : Body) (http : ℕ)
      (w' : World)
      → shape body ≡ some t
      → handle e (request_of (stamp w).0 (stamp w).1 a).context (call_of a) w
        ≡ respond e (request_of (stamp w).0 (stamp w).1 a).context body http w'
      → (w'' : World) × (post_as e v stamp shape a w ≡ (answered t, w''))
        × (w''.accounts ≡ w'.accounts)
  unfolding post_as
  ask-through shape t a w body http w' shaped h = (
    answered_at a w body http w',
    ap (λ r. (read_as shape r.0, r.1)) (post-through a w body http w' h)
        ∙ ap (λ o. (typed o, answered_at a w body http w')) shaped,
    answered_at-accounts a w body http w',
  )
