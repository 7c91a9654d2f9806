-- ===== src/Crypto/RoundTrip.antt =====
-- Round trips of standin-service/src/crypto.ts: a did:key gives its key back, a signature is accepted.
use mathlib.Core.Option
use finlabs_explore.Prelude.{String, ◌≡◌, refl, true, some}
use finlabs_explore.Js.Text.{strip_prefix-append}
use finlabs_explore.Crypto.Packages.{Bytes, Primitives, IsStandard}
use finlabs_explore.Crypto.{
  did_key_from_public_key, public_key_from_multibase, sha256_hex, sign_hash_hex, verify_hash_hex,
}

module _ (p : Primitives) (st : IsStandard p) where
  -- Given packages that do what is documented of them, the multibase text of a public key decodes to the
  -- key.
  pub public_key_from_multibase-did_key_from_public_key :
      (key : Bytes)
      → public_key_from_multibase p (did_key_from_public_key p key).public_key_multibase ≡ some key
  unfolding public_key_from_multibase did_key_from_public_key Option.bind
  public_key_from_multibase-did_key_from_public_key key =
      rw (strip_prefix-append, st.base58_inverse) refl

  -- Given packages that do what is documented of them: what is signed over a hash that this module computed, the key's owner's public key accepts.
  pub verify_hash_hex-sign_hash_hex :
      (private_key : Bytes) (message value : String)
      → sign_hash_hex p private_key (sha256_hex p message) ≡ some value
      → verify_hash_hex p (p.public_key_of private_key) (sha256_hex p message) value ≡ true
  unfolding sign_hash_hex verify_hash_hex sha256_hex Option.bind
  verify_hash_hex-sign_hash_hex private_key message value h =
      let signed = rw st.hex_inverse at h in
      rw (← Option.some-injective _ _ signed, st.hex_inverse, st.hex_inverse, st.signature_accepted)
        refl
