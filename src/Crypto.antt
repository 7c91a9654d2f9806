-- ===== src/Crypto.antt =====
-- standin-service/src/crypto.ts: key pairs, did:key, hashing, signing. A function that may throw
-- returns an `Option`.
pub mod Packages
pub mod RoundTrip
use Prim.Native.String
use finlabs_explore.Prelude.{
  ℕ, ◌+◌, ◌*◌, ◌/◌, ◌%◌, String, code, ◌≡◌, refl, Bool, true, false, ◌&&◌, List, [], ◌∷◌, ◌++◌,
  Option, none, some, ltb, ◌=ℕ=◌, if◌then◌else◌, or_default,
}
use mathlib.Core.Option
use finlabs_explore.Js.Text.{◌+ₛ◌, strip_prefix}
use Packages.{Bytes, Primitives}

-- ED25519_PUB_MULTICODEC
abbrev pub multicodec : Bytes
multicodec = 0xed ∷ 0x01 ∷ []

-- The UTF-8 bytes of one code point, and `new TextEncoder().encode`.
utf8 : ℕ → Bytes
utf8 n =
    if ltb n 0x80
    then n ∷ []
    else if ltb n 0x800
    then (0xc0 + n / 64) ∷ (0x80 + n % 64) ∷ []
    else if ltb n 0x10000
    then (0xe0 + n / 4096) ∷ (0x80 + n / 64 % 64) ∷ (0x80 + n % 64) ∷ []
    else (0xf0 + n / 262144) ∷ (0x80 + n / 4096 % 64) ∷ (0x80 + n / 64 % 64) ∷ (0x80 + n % 64) ∷ []

unfoldable pub text_encode : String → Bytes
unfolding utf8
text_encode String.[] = []
text_encode (String.◌∷◌ c s) = utf8 (code c) ++ text_encode s

pub record Keypair : Type 0 where
  pub private_key : Bytes
  pub public_key : Bytes

pub record DidKey : Type 0 where
  pub did : String
  pub public_key_multibase : String

-- `decoded[0] !== 0xed || decoded[1] !== 0x01`: a missing byte is undefined, and differs.
after_multicodec : Bytes → Option Bytes
after_multicodec (a ∷ b ∷ rest) = if a =ℕ= 0xed && b =ℕ= 0x01 then some rest else none
after_multicodec _ = none

module _ (p : Primitives) where
  -- `generateKeypair`, given what `randomPrivateKey` returned
  unfoldable pub generate_keypair : Bytes → Keypair
  generate_keypair private_key = record {
    private_key = private_key;
    public_key = p.public_key_of private_key;
  }

  unfoldable pub did_key_from_public_key : Bytes → DidKey
  did_key_from_public_key public_key =
      let multibase = "z" +ₛ p.base58_encode (multicodec ++ public_key) in
      record { did = "did:key:" +ₛ multibase; public_key_multibase = multibase }

  unfoldable pub public_key_from_multibase : String → Option Bytes
  unfolding after_multicodec strip_prefix
  public_key_from_multibase multibase =
      Option.bind (strip_prefix "z" multibase)
        λ encoded. Option.bind (p.base58_decode encoded) after_multicodec

  unfoldable pub sha256_hex : String → String
  sha256_hex message = p.bytes_to_hex (p.sha256 (text_encode message))

  unfoldable pub sign_hash_hex : Bytes → String → Option String
  sign_hash_hex private_key hash_hex =
      Option.map (λ hash. p.bytes_to_hex (p.sign hash private_key)) (p.hex_to_bytes hash_hex)

  -- the `try` turns every throw into `false`
  unfoldable pub verify_hash_hex : Bytes → String → String → Bool
  verify_hash_hex public_key hash_hex signature_hex =
      or_default
        (Option.bind (p.hex_to_bytes signature_hex) λ signature.
          Option.bind (p.hex_to_bytes hash_hex) λ hash. p.verify signature hash public_key)
        false
