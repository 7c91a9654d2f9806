-- ===== src/Wallet/Signing.antt =====
-- `SignAndVerify` of app/src/App.tsx with the custodial signer of standin-service/src behind it.
use mathlib.Core.Option
use finlabs_explore.Prelude.{
  String, ◌≡◌, refl, ap, ◌∙◌, true, false, Option, none, some, ◌==◌, or_default,
}
use finlabs_explore.Js.Text.{strip_prefix}
use finlabs_explore.Crypto.Packages.{Primitives, IsStandard}
use finlabs_explore.Crypto.{sha256_hex, sign_hash_hex, did_key_from_public_key, text_encode}
use finlabs_explore.Crypto.RoundTrip.{
  public_key_from_multibase-did_key_from_public_key, verify_hash_hex-sign_hash_hex,
}
use finlabs_explore.Types.Account.{Account}
use finlabs_explore.Accounts.{get_by_key_id}
use finlabs_explore.Envelope.{RequestContext, Response, respond}
use finlabs_explore.Envelope.Bodies.{Body, signature, AccountKeyInfo}
use finlabs_explore.Handlers.Account.{keys_sign, without_0x}
use finlabs_explore.App.{Request, Validator, serve, admit, finish, judge, handle}
use finlabs_explore.App.Induction.{Reachable}
use finlabs_explore.App.Keys.{Reachable-IsMatched}
use finlabs_explore.World.{World, Exec, throw, gets, pure, ◌>>=◌}
use finlabs_explore.World.Env.{Env}
use finlabs_explore.Wallet.Client.{
  Api, answered, request_of, call_of, read_reply, read_body, reply_of,
}
use finlabs_explore.Wallet.Backend.Service.{
  as_signature, read_outcome, read_as, post, post_as, service,
}
use finlabs_explore.Wallet.Screens.Sign.{SignScreen, start_sign, settle_sign, sign_verdict}
use finlabs_explore.Wallet.Screens.Sign

-- The validator lets everything through.
abbrev pub LetsThrough : Validator → Type 0
LetsThrough v =
    ((request : Request) → v.reject_request request ≡ none)
    × ((request : Request) (response : Response) → v.reject_response request response ≡ none)

-- The signature that the signer makes of a message.
abbrev pub signature_text : Primitives → Account → String → String
signature_text p account message =
    p.bytes_to_hex (p.sign (p.sha256 (text_encode message)) account.private_key)

sign_hash_hex-sha256_hex :
    (p : Primitives) (account : Account) (message : String)
    → IsStandard p
    → sign_hash_hex p account.private_key (sha256_hex p message)
      ≡ some (signature_text p account message)
unfolding sign_hash_hex sha256_hex
sign_hash_hex-sha256_hex p account message st = rw st.hex_inverse refl

keys_sign-respond :
    (e : Env) (ctx : Option RequestContext) (key_id hash sig : String) (account : Account)
    (w : World)
    → get_by_key_id w.accounts key_id ≡ some account
    → strip_prefix "0x" hash ≡ none
    → sign_hash_hex e.packages account.private_key hash ≡ some sig
    → keys_sign e ctx key_id hash w ≡ respond e ctx (signature sig) 200 w
unfolding keys_sign ◌>>=◌ gets
keys_sign-respond e ctx key_id hash sig account w found plain signed =
    let same : without_0x e ctx hash ≡ hash = ap (λ o. or_default o hash) plain in
    let signed' = ap (sign_hash_hex e.packages account.private_key) same ∙ signed in
    rw found (
      ap
        (λ o.
          (elim o as (λ x. Exec Response) [
            | none ↦ throw (e.packages.hex_error (without_0x e ctx hash))
            | some sig' ↦ respond e ctx (signature sig') 200
          ])
            w)
        signed')

finish-respond :
    (e : Env) (v : Validator) (request : Request) (body : Body) (w : World)
    → ((response : Response) → v.reject_response request response ≡ none)
    → read_outcome
        (finish e v request
          (respond e request.context body 200 w).0
          (respond e request.context body 200 w).1).0
      ≡ answered body
unfolding finish judge pure respond read_outcome read_reply reply_of read_body
finish-respond e v request body w after = rw after refl

-- What the browser makes of a response that is let through.
serve-respond :
    (e : Env) (v : Validator) (request : Request) (body : Body) (w : World)
    → LetsThrough v
    → handle e request.context request.call w ≡ respond e request.context body 200 w
    → read_outcome (serve e v request w).0 ≡ answered body
unfolding serve admit
serve-respond e v request body w (before, after) h =
    ap (λ o. read_outcome (admit e v request o w).0) (before request)
    ∙ ap (λ r. read_outcome (finish e v request r.0 r.1).0) h
    ∙ finish-respond e v request body w (after request)

-- `sign`, from the click to the answer.
sign-answered :
    (e : Env) (v : Validator) (stamp : World → String × String) (key_id hash sig : String)
    (account : Account) (w : World)
    → LetsThrough v
    → get_by_key_id w.accounts key_id ≡ some account
    → strip_prefix "0x" hash ≡ none
    → sign_hash_hex e.packages account.private_key hash ≡ some sig
    → ((service e v stamp).sign key_id hash w).0 ≡ answered (record { signature = sig })
unfolding service post_as post handle call_of request_of
sign-answered e v stamp key_id hash sig account w through found plain signed =
    let request : Request = request_of (stamp w).0 (stamp w).1 (Api.sign key_id hash) in
    ap (read_as as_signature) (
      serve-respond e v request (signature sig) w through
        (keys_sign-respond e request.context key_id hash sig account w found plain signed))

verdict-settled :
    (p : Primitives) (key : AccountKeyInfo) (screen : SignScreen) (account : Account) (sig : String)
    → IsStandard p
    → key.public_key_multibase
      ≡ (did_key_from_public_key p (p.public_key_of account.private_key)).public_key_multibase
    → sign_hash_hex p account.private_key (sha256_hex p screen.message) ≡ some sig
    → (sig == "") ≡ false
    → sign_verdict p key (settle_sign screen (answered (record { signature = sig }))) ≡ some true
unfolding sign_verdict settle_sign Option.bind
verdict-settled p key screen account sig st matched signed filled =
    rw
      (
        filled,
        matched,
        public_key_from_multibase-did_key_from_public_key p st,
        verify_hash_hex-sign_hash_hex p st account.private_key screen.message sig signed,
      )
      refl

module _ (e : Env) (v : Validator) (stamp : World → String × String) where
  -- In a state that the service can reach, behind a validator that lets everything through, with
  -- packages that do what is documented of them (IsStandard), and for the key of a stored account:
  -- signing a message leaves the screen without an error, with the message as the text to verify and a
  -- verdict that the signature is valid, given that the hexadecimal text of the message's hash does
  -- not start with 0x and that of the signature is not empty.
  pub sign-verdict :
      (key : AccountKeyInfo) (screen : SignScreen) (account : Account) (w : World)
      → IsStandard e.packages
      → LetsThrough v
      → Reachable e v w
      → get_by_key_id w.accounts key.key_id ≡ some account
      → key.public_key_multibase ≡ account.public_key_multibase
      → strip_prefix "0x" (sha256_hex e.packages screen.message) ≡ none
      → (signature_text e.packages account screen.message == "") ≡ false
      → (after : SignScreen) × ((Sign.sign e.packages (service e v stamp) key screen w).0 ≡ after)
        × (after.signed_message ≡ some screen.message)
        × (after.verify_text ≡ screen.message)
        × (after.error ≡ none)
        × (sign_verdict e.packages key after ≡ some true)
  unfolding Sign.sign settle_sign start_sign
  sign-verdict key screen account w st through reachable found matched plain filled =
      let sig = signature_text e.packages account screen.message in
      let signed = sign_hash_hex-sha256_hex e.packages account screen.message st in
      let started = start_sign screen in
      let own = matched ∙ Reachable-IsMatched e v w key.key_id account reachable found in
      (
        settle_sign started (answered (record { signature = sig })),
        ap (settle_sign started) (
            sign-answered e v stamp key.key_id (sha256_hex e.packages screen.message) sig account w
              through found plain signed),
        refl,
        refl,
        refl,
        verdict-settled e.packages key started account sig st own signed filled,
      )
