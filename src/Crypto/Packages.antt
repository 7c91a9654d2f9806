-- ===== src/Crypto/Packages.antt =====
-- The packages that standin-service/src/crypto.ts calls: @noble/hashes, @noble/ed25519 and
-- @scure/base. They are parameters; `IsStandard` states what their documentation promises.
use finlabs_explore.Js.Text.{lacks}
use finlabs_explore.Prelude.{ℕ, String, ◌≡◌, Bool, true, List, Option, some}

abbrev pub Bytes : Type 0
Bytes = List ℕ

pub record Primitives : Type 0 where
  pub sha256 : Bytes → Bytes
  pub bytes_to_hex : Bytes → String
  -- `none` where the package throws, with the text that it throws
  pub hex_to_bytes : String → Option Bytes
  pub hex_error : String → String
  pub base58_encode : Bytes → String
  pub base58_decode : String → Option Bytes
  -- ed.getPublicKey(privateKey)
  pub public_key_of : Bytes → Bytes
  -- ed.sign(message, privateKey)
  pub sign : Bytes → Bytes → Bytes
  -- ed.verify(signature, message, publicKey)
  pub verify : Bytes → Bytes → Bytes → Option Bool

pub record IsStandard (p : Primitives) : Type 0 where
  pub hex_inverse : (b : Bytes) → p.hex_to_bytes (p.bytes_to_hex b) ≡ some b
  pub base58_inverse : (b : Bytes) → p.base58_decode (p.base58_encode b) ≡ some b
  -- '#' is not in the base58 alphabet
  pub base58_plain : (b : Bytes) → lacks b'#' (p.base58_encode b) ≡ true
  pub signature_accepted : (m k : Bytes) → p.verify (p.sign m k) m (p.public_key_of k) ≡ some true
