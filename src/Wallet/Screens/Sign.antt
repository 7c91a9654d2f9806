-- ===== src/Wallet/Screens/Sign.antt =====
-- app/src/App.tsx: `SignAndVerify`.
use mathlib.Core.Option
use finlabs_explore.Prelude.{String, Bool, true, false, not, ◌||◌, Option, none, some, ◌==◌}
use finlabs_explore.Crypto.Packages.{Primitives}
use finlabs_explore.Crypto.{sha256_hex, public_key_from_multibase, verify_hash_hex}
use finlabs_explore.Envelope.{non_empty}
use finlabs_explore.Envelope.Bodies.{AccountKeyInfo}
use finlabs_explore.Wallet.Types.{SignatureResponse}
use finlabs_explore.Wallet.Client.{Answer, answered, refused, error_text}
use finlabs_explore.Wallet.Backend.{Backend}

pub record SignScreen : Type 0 where
  pub message : String
  pub signature : Option String
  pub signed_message : Option String
  pub verify_text : String
  pub busy : Bool
  pub error : Option String

abbrev pub new_sign : SignScreen
new_sign = record {
  message = "Transfer 100 USDC to bob";
  signature = none;
  signed_message = none;
  verify_text = "";
  busy = false;
  error = none;
}

unfoldable pub can_sign : SignScreen → Bool
can_sign screen = not (screen.busy || screen.message == "")

-- `verdict`: `none` without a signature, and where the key has no bytes, which breaks the rendering.
unfoldable pub sign_verdict : Primitives → AccountKeyInfo → SignScreen → Option Bool
sign_verdict p key screen = Option.bind (non_empty screen.signature) λ sig.
    Option.map (λ bytes. verify_hash_hex p bytes (sha256_hex p screen.verify_text) sig)
      (public_key_from_multibase p key.public_key_multibase)

-- `setBusy(true)` and `setError(null)`, before the `try`.
unfoldable pub start_sign : SignScreen → SignScreen
start_sign screen = record screen { busy = true; error = none }

-- What `sign` makes of its answer, with the `finally`: the signed message starts the box for the message to
-- verify.
unfoldable pub settle_sign : SignScreen → Answer SignatureResponse → SignScreen
unfolding error_text
settle_sign screen (answered r) = record screen {
  signature = some r.signature;
  signed_message = some screen.message;
  verify_text = screen.message;
  busy = false;
}
settle_sign screen (refused failure) = record screen {
  busy = false;
  error = some (error_text failure);
}

module _ {σ : Type 0} (p : Primitives) (b : Backend σ) where
  unfoldable pub sign : AccountKeyInfo → SignScreen → σ → SignScreen × σ
  unfolding start_sign settle_sign
  sign key screen s =
      let started = start_sign screen in
      let (r, s') = b.sign key.key_id (sha256_hex p started.message) s in
      (settle_sign started r, s')
