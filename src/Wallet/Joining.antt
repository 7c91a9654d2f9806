-- ===== src/Wallet/Joining.antt =====
-- `CreateAccount` of app/src/App.tsx with standin-service/src behind it.
use finlabs_explore.Prelude.{
  String, subst, ◌≡◌, ◌≢◌, refl, ap, ◌∙◌, true, false, none, some, [], ◌∷◌, ◌==◌, eq_iff,
  if◌then◌else◌,
}
use finlabs_explore.Types.Account.{Account, NewAccount, CreatedAccount}
use finlabs_explore.Accounts.{address_taken, get_by_address, get_by_token, get_by_key_id}
use finlabs_explore.Accounts.Lookup.{create_account-IsRegistered}
use finlabs_explore.Envelope.Bodies.{availability, registration, profile, key_list}
use finlabs_explore.Handlers.Account.{valid_address}
use finlabs_explore.App.{Validator}
use finlabs_explore.World.{World}
use finlabs_explore.World.Env.{Env}
use finlabs_explore.Wallet.Types.{RegistrationSuccessResponse, AccountProfile}
use finlabs_explore.Wallet.Client.{Api, request_of, call_id, answered}
use finlabs_explore.Wallet.Backend.{◌>>=◌, both}
use finlabs_explore.Wallet.Backend.Service.{
  as_availability, as_registration, as_profile, as_keys, post_as, service,
}
use finlabs_explore.Wallet.Screens.Create
use finlabs_explore.Wallet.Screens.Create.{
  CreateForm, Session, session_of, create_session, start_create, settle_create,
}
use finlabs_explore.Wallet.Signing.{LetsThrough}
use finlabs_explore.Wallet.Answering.{
  access_token-filled, caller-known, check-free, create-valid, profile-known, keys-known,
  ask-through, key_of,
}

valid-filled : (address : String) → valid_address address ≡ true → address ≢ ""
unfolding valid_address
valid-filled address valid empty =
    let bad = subst (λ s. valid_address s ≡ true) empty valid in absurd (cc bad)

abbrev pub input_of : CreateForm → NewAccount
input_of form = record { address = form.address; name = form.name; entity_type = form.entity_type }

abbrev registered_of : CreatedAccount → RegistrationSuccessResponse
registered_of c = record {
  access_token = c.access_token;
  token_type = "Bearer";
  expires_in = 3600;
  is_existing = false;
}

abbrev pub profile_of : Account → AccountProfile
profile_of account = record {
  did = account.did;
  address = account.address;
  name = account.name;
  entity_type = account.entity_type;
}

abbrev pub input_of_account : Account → NewAccount
input_of_account account = record {
  address = account.address;
  name = account.name;
  entity_type = account.entity_type;
}

-- A session for the account that was made of the input: its profile and its key are what the service
-- tells of that account.
pub record IsSessionOf (input : NewAccount) (account : Account) (w : World) (session : Session)
    : Type 0 where
  pub by_address : get_by_address w.accounts input.address ≡ some account
  pub by_token : get_by_token w.accounts session.token ≡ some account
  pub by_key : get_by_key_id w.accounts session.key.key_id ≡ some account
  pub own_profile : session.profile ≡ profile_of account
  pub own_key : session.key ≡ key_of account
  pub entered : input_of_account account ≡ input

abbrev session_for : CreatedAccount → Session
session_for c = record {
  token = c.access_token;
  profile = profile_of c.account;
  key = key_of c.account;
}

-- An account is found under its address, its token and its key id, and is what was asked for.
abbrev IsFound : NewAccount → CreatedAccount → World → Type 0
IsFound input c w =
    (get_by_address w.accounts input.address ≡ some c.account)
    × (get_by_token w.accounts c.access_token ≡ some c.account)
    × (get_by_key_id w.accounts c.account.key_id ≡ some c.account)
    × (input_of_account c.account ≡ input)

module _ (e : Env) (v : Validator) (stamp : World → String × String) where
  check-answered :
      (address : String) (w : World)
      → LetsThrough v
      → address_taken w.accounts address ≡ false
      → (w' : World) × (post_as e v stamp as_availability (Api.check_availability address) w
          ≡ (answered (record { available = true }), w'))
        × (w'.accounts ≡ w.accounts)
  check-answered address w through free =
      ask-through e v stamp through as_availability (record { available = true })
        (Api.check_availability address) w (availability true) 200 w refl
        (check-free e v stamp through _ address w free)

  create-answered :
      (input : NewAccount) (w : World)
      → LetsThrough v
      → valid_address input.address ≡ true
      → address_taken w.accounts input.address ≡ false
      → (c : CreatedAccount) × (w' : World) × (post_as e v stamp as_registration
            (Api.create_account input)
            w
          ≡ (answered (registered_of c), w'))
        × ((c.access_token == "") ≡ false)
        × IsFound input c w'
  create-answered input w through valid free =
      let (c, made_w, made, registered) =
        create_account-IsRegistered e input w (valid-filled input.address valid) in
      let (w', created, kept) =
        ask-through e v stamp through as_registration (registered_of c) (Api.create_account input) w
          (registration c.access_token "Bearer" 3600 false) 201 made_w refl
          (create-valid e v stamp through _ input w made_w c valid free made) in
      (
        c,
        w',
        created,
        access_token-filled e input w made_w c made,
        (
          ap (λ a. get_by_address a input.address) kept
              ∙ registered.by_address input.address
              ∙ ap (λ b. if b then some c.account else get_by_address w.accounts input.address)
                  ((eq_iff input.address input.address).1 refl),
          ap (λ a. get_by_token a c.access_token) kept ∙ registered.by_token,
          ap (λ a. get_by_key_id a c.account.key_id) kept ∙ registered.by_key_id,
          cc (registered.addressed, registered.named, registered.typed),
        ),
      )

  profile-answered :
      (token : String) (account : Account) (w : World)
      → LetsThrough v
      → (token == "") ≡ false
      → get_by_token w.accounts token ≡ some account
      → (w' : World) × (post_as e v stamp as_profile (Api.get_account token) w
          ≡ (answered (profile_of account), w'))
        × (w'.accounts ≡ w.accounts)
  unfolding request_of
  profile-answered token account w through filled known =
      ask-through e v stamp through as_profile (profile_of account) (Api.get_account token) w
        (profile account.did account.address account.name account.entity_type) 200 w refl
        (profile-known e v stamp through _ token account w (
          caller-known e v stamp through (stamp w).0 (stamp w).1 (call_id (Api.get_account token))
            token account w filled known))

  keys-answered :
      (token : String) (account : Account) (w : World)
      → LetsThrough v
      → (token == "") ≡ false
      → get_by_token w.accounts token ≡ some account
      → (w' : World) × (post_as e v stamp as_keys (Api.search_keys token) w
          ≡ (answered (record { keys = key_of account ∷ [] }), w'))
        × (w'.accounts ≡ w.accounts)
  unfolding request_of
  keys-answered token account w through filled known =
      ask-through e v stamp through as_keys (record { keys = key_of account ∷ [] })
        (Api.search_keys token) w (key_list (key_of account ∷ [])) 200 w refl
        (keys-known e v stamp through _ token account w (
          caller-known e v stamp through (stamp w).0 (stamp w).1 (call_id (Api.search_keys token))
            token account w filled known))

  create_session-answered :
      (form : CreateForm) (c : CreatedAccount) (w w1 w2 w3 w4 : World)
      → post_as e v stamp as_availability (Api.check_availability form.address) w
        ≡ (answered (record { available = true }), w1)
      → post_as e v stamp as_registration (Api.create_account (input_of form)) w1
        ≡ (answered (registered_of c), w2)
      → post_as e v stamp as_profile (Api.get_account c.access_token) w2
        ≡ (answered (profile_of c.account), w3)
      → post_as e v stamp as_keys (Api.search_keys c.access_token) w3
        ≡ (answered (record { keys = key_of c.account ∷ [] }), w4)
      → create_session (service e v stamp) form w ≡ (answered (session_for c), w4)
  unfolding create_session service session_of ◌>>=◌ both
  create_session-answered form c w w1 w2 w3 w4 checked created got searched =
      rw (checked, created, got, searched) refl

  -- Behind a validator that lets everything through, for an address that is valid and not taken:
  -- pressing the button returns a session and leaves the form idle and without an error. The service
  -- then finds one account under the form's address, under the session's token and under the session's
  -- key id; the account has the form's address, name and entity type, and the session's profile and key
  -- are, field for field, what the service tells of that account.
  pub create-IsSessionOf :
      (form : CreateForm) (w : World)
      → LetsThrough v
      → valid_address form.address ≡ true
      → address_taken w.accounts form.address ≡ false
      → (account : Account) × (session : Session) × (w' : World) × (Create.create
            (service e v stamp)
            form
            w
          ≡ ((some session, record form { busy = false; error = none }), w'))
        × IsSessionOf (input_of form) account w' session
  unfolding Create.create start_create settle_create
  create-IsSessionOf form w through valid free =
      let (w1, checked, kept) = check-answered form.address w through free in
      let (c, w2, created, filled, (by_address, by_token, by_key, entered)) =
        create-answered (input_of form) w1 through valid
          (ap (λ a. address_taken a form.address) kept ∙ free) in
      let (w3, got, kept3) = profile-answered c.access_token c.account w2 through filled by_token in
      let by_token3 = ap (λ a. get_by_token a c.access_token) kept3 ∙ by_token in
      let (w4, searched, kept4) =
        keys-answered c.access_token c.account w3 through filled by_token3 in
      let by_address3 = ap (λ a. get_by_address a form.address) kept3 ∙ by_address in
      let by_key3 = ap (λ a. get_by_key_id a c.account.key_id) kept3 ∙ by_key in
      (
        c.account,
        session_for c,
        w4,
        ap (λ r. (settle_create (start_create form) r.0, r.1))
            (create_session-answered (start_create form) c w w1 w2 w3 w4 checked created got
              searched),
        record {
          by_address = ap (λ a. get_by_address a form.address) kept4 ∙ by_address3;
          by_token = ap (λ a. get_by_token a c.access_token) kept4 ∙ by_token3;
          by_key = ap (λ a. get_by_key_id a c.account.key_id) kept4 ∙ by_key3;
          own_profile = refl;
          own_key = refl;
          entered = entered;
        },
      )
