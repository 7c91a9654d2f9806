-- ===== src/World/Env.antt =====
-- What the service takes from outside: the random source, the clock, the packages and the two
-- schema validators. They are parameters, and `IsFaithful` states what is documented of them.
use finlabs_explore.Prelude.{ℕ, ◌≤◌, String, ◌≡◌, ◌≢◌, Bool, Option, some}
use finlabs_explore.Crypto.Packages.{Bytes, Primitives, IsStandard}
use finlabs_explore.Types.Credential.{CredentialToken}
use finlabs_explore.Types.Token.{TokenInstance}

pub record Env : Type 0 where
  pub packages : Primitives
  -- what the n-th call of `randomUUID()` returns
  pub uuid : ℕ → String
  -- what the n-th reading of the clock returns, in milliseconds
  pub clock : ℕ → ℕ
  -- `new Date(t).toISOString()`
  pub iso : ℕ → String
  -- `Date.parse`; `none` is NaN
  pub date_parse : String → Option ℕ
  -- what the n-th call of `ed.utils.randomPrivateKey()` returns
  pub private_key : ℕ → Bytes
  -- ajv over credential.schema.json and token.schema.json, with the text of its errors
  pub validate_credential : CredentialToken → Bool
  pub credential_errors : CredentialToken → String
  pub validate_token : TokenInstance → Bool
  pub token_errors : TokenInstance → String

pub record IsFaithful (e : Env) : Type 0 where
  pub standard : IsStandard e.packages
  pub uuid_injective : (m n : ℕ) → e.uuid m ≡ e.uuid n → m ≡ n
  pub clock_grows : (m n : ℕ) → m ≤ n → e.clock m ≤ e.clock n
  pub date_parse-iso : (t : ℕ) → e.date_parse (e.iso t) ≡ some t
  pub iso-ne-empty : (t : ℕ) → e.iso t ≢ ""
