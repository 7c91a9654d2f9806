-- ===== src/Wallet/Screens/Create.antt =====
-- app/src/App.tsx: `CreateAccount`.
use finlabs_explore.Prelude.{
  String, Bool, true, false, not, ◌||◌, Option, none, some, List, [], ◌∷◌, ◌==◌, if◌then◌else◌,
}
use finlabs_explore.Js.Text.{◌+ₛ◌}
use finlabs_explore.Types.Account.{EntityType, personal}
use finlabs_explore.Envelope.Bodies.{AccountKeyInfo}
use finlabs_explore.Wallet.Types.{AccountProfile}
use finlabs_explore.Wallet.Client.{Answer, answered, refused, other_error, error_text}
use finlabs_explore.Wallet.Backend.{Ask, done, throw, ◌>>=◌, both, Backend}

pub record Session : Type 0 where
  pub token : String
  pub profile : AccountProfile
  pub key : AccountKeyInfo

pub record CreateForm : Type 0 where
  pub address : String
  pub name : String
  pub entity_type : EntityType
  pub busy : Bool
  pub error : Option String

abbrev pub new_form : CreateForm
new_form = record {
  address = "alice";
  name = "Alice Example";
  entity_type = personal;
  busy = false;
  error = none;
}

-- The button is there to be pressed: it is not disabled.
unfoldable pub can_create : CreateForm → Bool
can_create form = not (form.busy || form.address == "" || form.name == "")

-- `keys.keys[0]`
unfoldable pub session_of :
    {σ : Type 0} → String → AccountProfile → List AccountKeyInfo → Ask σ Session
session_of token profile [] = throw (other_error "Account created but no key was returned.")
session_of token profile (key ∷ keys) =
    done (record { token = token; profile = profile; key = key })

-- `setBusy(true)` and `setError(null)`, before the `try`.
unfoldable pub start_create : CreateForm → CreateForm
start_create form = record form { busy = true; error = none }

-- What `create` makes of its answer, with the `finally`.
unfoldable pub settle_create : CreateForm → Answer Session → Option Session × CreateForm
unfolding error_text
settle_create form (answered session) = (some session, record form { busy = false })
settle_create form (refused failure) =
    (none, record form { busy = false; error = some (error_text failure) })

module _ {σ : Type 0} (b : Backend σ) where
  -- The body of `create`'s `try`.
  unfoldable pub create_session : CreateForm → Ask σ Session
  unfolding ◌>>=◌ both session_of
  create_session form = do
    availability ← b.check_availability form.address
    if availability.available
        then (do
          registration ←
              b.create_account (record {
                address = form.address;
                name = form.name;
                entity_type = form.entity_type;
              })
          found ←
              both (b.get_account registration.access_token)
                (b.search_keys registration.access_token)
          session_of registration.access_token found.0 found.1.keys)
        else throw
            (other_error ("Address \"" +ₛ (form.address +ₛ "\" is already taken — pick another.")))

  unfoldable pub create : CreateForm → σ → (Option Session × CreateForm) × σ
  unfolding start_create create_session settle_create
  create form s =
      let started = start_create form in
      let (r, s') = create_session started s in (settle_create started r, s')
