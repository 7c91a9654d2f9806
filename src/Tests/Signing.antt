-- ===== src/Tests/Signing.antt =====
-- The theorem on signing, with an account that has just been created.
use finlabs_explore.Prelude.{String, ◌≡◌, refl, true, false, none, some, [], ◌==◌}
use finlabs_explore.Js.Dict
use finlabs_explore.Js.Dict.{get, put, has}
use finlabs_explore.Js.Text.{strip_prefix}
use finlabs_explore.Crypto.{sha256_hex, text_encode, did_key_from_public_key}
use finlabs_explore.Types.Account.{Account, personal}
use finlabs_explore.Accounts.{get_by_key_id, create_account, address_taken}
use finlabs_explore.Envelope.{respond}
use finlabs_explore.Envelope.Bodies.{AccountKeyInfo}
use finlabs_explore.Handlers.Account.{account_create}
use finlabs_explore.App.{serve, boot, handle}
use finlabs_explore.World.{World}
use finlabs_explore.Wallet.Backend.Service.{service}
use finlabs_explore.Wallet.Screens.Sign
use finlabs_explore.Wallet.Screens.Sign.{SignScreen, new_sign, sign_verdict}
use finlabs_explore.Wallet.Signing.{signature_text, sign-verdict}
use finlabs_explore.Tests.Toy.{toy, packages, packages-IsStandard}
use finlabs_explore.Tests.Cases.{lenient}
use finlabs_explore.Tests.Chaining.{signed_up, signed_up-Reachable}

abbrev stamp : World → String × String
stamp w = ("t", "m")

abbrev account : Account
account = record {
  address = "alice";
  name = "Alice";
  entity_type = personal;
  did = (did_key_from_public_key packages (toy.private_key 1)).did;
  key_id = toy.uuid 0;
  public_key_multibase =
      (did_key_from_public_key packages (toy.private_key 1)).public_key_multibase;
  public_key = toy.private_key 1;
  private_key = toy.private_key 1;
  created_at = toy.iso (toy.clock 1);
}

abbrev key : AccountKeyInfo
key = record {
  key_id = account.key_id;
  public_key_multibase = account.public_key_multibase;
  key_type = "Ed25519VerificationKey2020";
  purpose = [];
  status = "active";
  is_primary = true;
  created_at = account.created_at;
}

found : get_by_key_id signed_up.accounts key.key_id ≡ some account
unfolding get_by_key_id serve boot handle account_create create_account get put
    mathlib.Core.Option.bind address_taken Dict.empty respond
found = refl

plain : strip_prefix "0x" (sha256_hex packages new_sign.message) ≡ none
unfolding strip_prefix sha256_hex text_encode
plain = refl

filled : (signature_text packages account new_sign.message == "") ≡ false
unfolding text_encode
filled = refl

sign-verdict_example :
    (after : SignScreen) × ((Sign.sign packages
        (service toy lenient stamp)
        key
        new_sign
        signed_up).0
      ≡ after)
    × (after.signed_message ≡ some new_sign.message)
    × (after.verify_text ≡ new_sign.message)
    × (after.error ≡ none)
    × (sign_verdict packages key after ≡ some true)
sign-verdict_example =
    sign-verdict toy lenient stamp key new_sign account signed_up packages-IsStandard
      (λ request. refl, λ request response. refl) signed_up-Reachable found refl plain filled
