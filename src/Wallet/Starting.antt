-- ===== src/Wallet/Starting.antt =====
-- `CreateAccount` and `SignAndVerify` of app/src/App.tsx, one after the other, with
-- standin-service/src behind both.
use finlabs_explore.Prelude.{
  String, Option, ◌≡◌, refl, ap, subst, Bool, true, false, none, some, [], ◌∷◌, List, ◌==◌,
  if◌then◌else◌,
}
use finlabs_explore.Js.Text.{strip_prefix}
use finlabs_explore.Crypto.Packages.{IsStandard}
use finlabs_explore.Crypto.{sha256_hex}
use finlabs_explore.Types.Account.{Account}
use finlabs_explore.Accounts.{address_taken}
use finlabs_explore.Envelope.Bodies.{Body, AccountKeyInfo}
use finlabs_explore.Handlers.Account.{valid_address}
use finlabs_explore.App.{Validator}
use finlabs_explore.App.Induction.{Reachable, served}
use finlabs_explore.World.{World}
use finlabs_explore.World.Env.{Env}
use finlabs_explore.Wallet.Types.{AccountProfile}
use finlabs_explore.Wallet.Client.{Api, Answer, answered, refused, request_of}
use finlabs_explore.Wallet.Backend.{Ask, ask_on, ◌>>=◌, both}
use finlabs_explore.Wallet.Backend.Service.{post, post_as, service}
use finlabs_explore.Wallet.Screens.Create
use finlabs_explore.Wallet.Screens.Create.{
  CreateForm, Session, session_of, create_session, start_create,
}
use finlabs_explore.Wallet.Screens.Sign
use finlabs_explore.Wallet.Screens.Sign.{SignScreen, sign_verdict}
use finlabs_explore.Wallet.Signing.{LetsThrough, signature_text, sign-verdict}
use finlabs_explore.Wallet.Joining.{create-IsSessionOf}

module _ (e : Env) (v : Validator) (stamp : World → String × String) where
  -- What the wallet asks leaves a state that the service can reach.
  record Reaches {T : Type 0} (m : Ask World T) : Type 0 where
    pub at : (w : World) → Reachable e v w → Reachable e v (m w).1

  post_as-Reaches :
      {T : Type 0} (shape : Body → Option T) (a : Api) → Reaches (post_as e v stamp shape a)
  unfolding post_as post
  post_as-Reaches shape a = record {
    at = λ w r. served (request_of (stamp w).0 (stamp w).1 a) r refl;
  }

  ask_on-Reaches :
      {S T : Type 0} (o : Answer S) (f : S → Ask World T)
      → ((a : S) → Reaches (f a))
      → Reaches (ask_on o f)
  ask_on-Reaches (answered a) f h = record { at = (h a).at }
  ask_on-Reaches (refused failure) f h = record { at = λ w r. r }

  bind-Reaches :
      {S T : Type 0} (m : Ask World S) (f : S → Ask World T)
      → Reaches m
      → ((a : S) → Reaches (f a))
      → Reaches (m >>= f)
  unfolding ◌>>=◌
  bind-Reaches m f k h = record { at = λ w r. (ask_on-Reaches (m w).0 f h).at (m w).1 (k.at w r) }

  both-Reaches :
      {S T : Type 0} (m : Ask World S) (n : Ask World T)
      → Reaches m
      → Reaches n
      → Reaches (both m n)
  unfolding both
  both-Reaches m n h k = record { at = λ w r. k.at (m w).1 (h.at w r) }

  session_of-Reaches :
      (token : String) (profile : AccountProfile) (keys : List AccountKeyInfo)
      → Reaches (session_of token profile keys)
  unfolding session_of
  session_of-Reaches token profile [] = record { at = λ w r. r }
  session_of-Reaches token profile (key ∷ keys) = record { at = λ w r. r }

  if-Reaches :
      {T : Type 0} (b : Bool) (m n : Ask World T)
      → Reaches m
      → Reaches n
      → Reaches (if b then m else n)
  if-Reaches true m n h k = h
  if-Reaches false m n h k = k

  create_session-Reaches : (form : CreateForm) → Reaches (create_session (service e v stamp) form)
  unfolding create_session service
  create_session-Reaches form = bind-Reaches _ _ (post_as-Reaches _ _) λ availability.
      if-Reaches availability.available _ _
        (bind-Reaches _ _ (post_as-Reaches _ _) λ registration.
          bind-Reaches _ _ (both-Reaches _ _ (post_as-Reaches _ _) (post_as-Reaches _ _))
            λ found. session_of-Reaches _ found.0 found.1.keys)
        (record { at = λ w r. r })

  create-Reachable :
      (form : CreateForm) (w : World)
      → Reachable e v w
      → Reachable e v (Create.create (service e v stamp) form w).1
  unfolding Create.create start_create
  create-Reachable form w r = (create_session-Reaches (start_create form)).at w r

  -- In a state that the service can reach, behind a validator that lets everything through, with
  -- packages that do what is documented of them (IsStandard): creating an account under an address that
  -- is valid and not taken returns a session, and signing a message with the session's key afterwards
  -- leaves that screen without an error and with a verdict that the signature is valid, given that the
  -- hexadecimal text of the message's hash does not start with 0x and that no signature of the message
  -- has an empty hexadecimal text.
  pub create-sign :
      (form : CreateForm) (screen : SignScreen) (w : World)
      → IsStandard e.packages
      → LetsThrough v
      → Reachable e v w
      → valid_address form.address ≡ true
      → address_taken w.accounts form.address ≡ false
      → strip_prefix "0x" (sha256_hex e.packages screen.message) ≡ none
      → ((account : Account) → (signature_text e.packages account screen.message == "") ≡ false)
      → (session : Session) × (after : SignScreen) × (form' : CreateForm) × (w' : World)
        × (Create.create (service e v stamp) form w ≡ ((some session, form'), w'))
        × ((Sign.sign e.packages (service e v stamp) session.key screen w').0 ≡ after)
        × (after.error ≡ none)
        × (sign_verdict e.packages session.key after ≡ some true)
  create-sign form screen w st through reachable valid free plain filled =
      let (account, session, w', created, own) =
        create-IsSessionOf e v stamp form w through valid free in
      let reached : Reachable e v w' =
        subst (Reachable e v) (ap (λ r. r.1) created) (create-Reachable form w reachable) in
      let (after, signed, text, shown, quiet, verdict) =
        sign-verdict e v stamp session.key screen account w' st through reached own.by_key
          (ap (λ k. k.public_key_multibase) own.own_key) plain (filled account) in
      (session, after, _, w', created, signed, quiet, verdict)
