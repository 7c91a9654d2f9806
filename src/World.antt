-- ===== src/World.antt =====
-- The whole service's state, and the calls that draw from outside. A call that throws gives back the
-- state that it left behind.
pub mod Env
pub mod Keeps
use finlabs_explore.Prelude.{ℕ, suc, ◌+◌, ◌*◌, String}
use finlabs_explore.Js.Dict.{Dict}
use finlabs_explore.Crypto.{Keypair, generate_keypair}
use finlabs_explore.Types.Account.{Accounts}
use finlabs_explore.Types.Credential.{CredentialToken}
use finlabs_explore.Types.TokenClass.{TokenClass}
use finlabs_explore.Types.Token.{Tokens}
use finlabs_explore.Types.Transaction.{Ledger}
use finlabs_explore.World.Env.{Env as Environment}

-- `uuids`, `readings` and `keys` count what has been drawn.
pub record World : Type 0 where
  pub uuids : ℕ
  pub readings : ℕ
  pub keys : ℕ
  pub accounts : Accounts
  pub credentials : Dict CredentialToken
  pub classes : Dict TokenClass
  pub tokens : Tokens
  pub ledger : Ledger

pub data Outcome {ℓ} (A : Type ℓ) : Type ℓ where
  returned : A → Outcome A
  thrown : (message : String) → Outcome A

abbrev pub Exec : Type 0 → Type 0
Exec A = World → Outcome A × World

unfoldable pub pure : {A : Type 0} → A → Exec A
pure a w = (returned a, w)

unfoldable pub throw : {A : Type 0} → String → Exec A
throw message w = (thrown message, w)

unfoldable pub gets : {A : Type 0} → (World → A) → Exec A
gets f w = (returned (f w), w)

unfoldable pub modify : (World → World) → Exec (Unit {0})
modify f w = (returned tt, f w)

abbrev pub continue : {A B : Type 0} → Outcome A → (A → Exec B) → Exec B
continue (returned a) f w = f a w
continue (thrown message) f w = (thrown message, w)

infixl 5 ◌>>=◌ ◌>>◌
-- Opening this opens the other actions too.
unfoldable pub ◌>>=◌ : {A B : Type 0} → Exec A → (A → Exec B) → Exec B
unfolding pure throw gets modify
◌>>=◌ m f w = let (r, w') = m w in continue r f w'

abbrev pub ◌>>◌ : {A B : Type 0} → Exec A → Exec B → Exec B
m >> k = m >>= λ _. k

-- `try { m } catch (e) { handler(e.message) }`
abbrev pub caught : {A : Type 0} → (String → Exec A) → Outcome A → Exec A
caught handler (returned a) w = (returned a, w)
caught handler (thrown message) w = handler message w

unfoldable pub try_catch : {A : Type 0} → Exec A → (String → Exec A) → Exec A
try_catch m handler w = let (r, w') = m w in caught handler r w'

module _ (e : Environment) where
  -- `randomUUID()`
  unfoldable pub random_uuid : Exec String
  random_uuid w = (returned (e.uuid w.uuids), record w { uuids = suc w.uuids })

  -- `Date.now()`
  unfoldable pub date_now : Exec ℕ
  date_now w = (returned (e.clock w.readings), record w { readings = suc w.readings })

  -- `new Date().toISOString()`
  unfoldable pub now_iso : Exec String
  now_iso w = (returned (e.iso (e.clock w.readings)), record w { readings = suc w.readings })

  -- `generateKeypair()`
  unfoldable pub random_keypair : Exec Keypair
  unfolding generate_keypair
  random_keypair w = (
    returned (generate_keypair e.packages (e.private_key w.keys)),
    record w { keys = suc w.keys },
  )
