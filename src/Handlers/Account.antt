-- ===== src/Handlers/Account.antt =====
-- standin-service/src/handlers.ts: the endpoints of accounts-interfaces.yaml and
-- key-management-interfaces.yaml.
use finlabs_explore.Prelude.{
  String, Char, code, Bool, true, false, not, ◌&&◌, ◌||◌, Option, none, some, [], ◌∷◌, or_default,
  leb, ◌=ℕ=◌, ◌==◌, if◌then◌else◌,
}
use finlabs_explore.Js.Text.{◌+ₛ◌, strip_prefix}
use finlabs_explore.Crypto.{sign_hash_hex}
use finlabs_explore.Types.Account.{NewAccount}
use finlabs_explore.Accounts.{address_taken, get_by_address, get_by_key_id, create_account}
use finlabs_explore.Envelope.{RequestContext, Response, respond, fail}
use finlabs_explore.Envelope.Bodies.{
  registration, availability, resolved, profile, key_list, signature, public_key,
}
use finlabs_explore.Handlers.Caller.{with_caller}
use finlabs_explore.World.{Exec, throw, gets, ◌>>=◌}
use finlabs_explore.World.Env.{Env}

address_char : Char → Bool
address_char c =
    let k = code c in
    (leb b'a' k && leb k b'z') || (leb b'0' k && leb k b'9') || k =ℕ= b'_' || k =ℕ= b'-'

address_chars : String → Bool
address_chars String.[] = true
address_chars (String.◌∷◌ c s) = address_char c && address_chars s

-- FINTERNET_ADDRESS_RE, `/^[a-z0-9_-]+$/`
unfoldable pub valid_address : String → Bool
unfolding address_char address_chars
valid_address s = not (s == "") && address_chars s

module _ (e : Env) (ctx : Option RequestContext) where
  unfoldable pub account_create : NewAccount → Exec Response
  unfolding valid_address
  account_create payload =
      if not (valid_address payload.address)
      then fail e ctx 400 "INVALID_ADDRESS" "Address must match ^[a-z0-9_-]+$"
      else (do
        taken ← gets (λ w. address_taken w.accounts payload.address)
        if taken
            then fail e ctx 409 "ADDRESS_TAKEN"
                ("Address '" +ₛ (payload.address +ₛ "' is already registered"))
            else (do
              created ← create_account e payload
              respond e ctx (registration created.access_token "Bearer" 3600 false) 201))

  unfoldable pub check_availability : (address : String) → Exec Response
  check_availability address = do
    taken ← gets (λ w. address_taken w.accounts address)
    respond e ctx (availability (not taken)) 200

  unfoldable pub resolve_address : (address : String) → Exec Response
  resolve_address address = do
    found ← gets (λ w. get_by_address w.accounts address)
    elim found [
      | none ↦ fail e ctx 404 "NOT_FOUND" ("No account for address '" +ₛ (address +ₛ "'"))
      | some account ↦ respond e ctx (resolved account.address account.did) 200
    ]

  unfoldable pub account_get : Exec Response
  unfolding with_caller
  account_get = with_caller e ctx λ account.
      respond e ctx (profile account.did account.address account.name account.entity_type) 200

  unfoldable pub keys_search : Exec Response
  unfolding with_caller
  keys_search = with_caller e ctx λ account.
      respond e ctx
        (key_list (
          record {
            key_id = account.key_id;
            public_key_multibase = account.public_key_multibase;
            key_type = "Ed25519VerificationKey2020";
            purpose = "authentication" ∷ "assertion" ∷ [];
            status = "active";
            is_primary = true;
            created_at = account.created_at;
          }
          ∷ []))
        200

  -- `hash.startsWith('0x') ? hash.slice(2) : hash`
  abbrev pub without_0x : String → String
  without_0x hash = or_default (strip_prefix "0x" hash) hash

  unfoldable pub keys_sign : (key_reference hash : String) → Exec Response
  keys_sign key_reference hash = do
    found ← gets (λ w. get_by_key_id w.accounts key_reference)
    elim found [
      | none ↦ fail e ctx 404 "KEY_NOT_FOUND" ("No key for reference '" +ₛ (key_reference +ₛ "'"))
      | some account ↦ elim (sign_hash_hex e.packages account.private_key (without_0x hash)) [
        | none ↦ throw (e.packages.hex_error (without_0x hash))
        | some sig ↦ respond e ctx (signature sig) 200
      ]
    ]

  unfoldable pub keys_public : (key_reference : String) → Exec Response
  keys_public key_reference = do
    found ← gets (λ w. get_by_key_id w.accounts key_reference)
    elim found [
      | none ↦ fail e ctx 404 "KEY_NOT_FOUND" ("No key for reference '" +ₛ (key_reference +ₛ "'"))
      | some account ↦ respond e ctx (public_key account.public_key_multibase account.address) 200
    ]
