-- ===== src/Tests/Starting.antt =====
-- The theorem on creating an account and signing with its key, on a service that has just started.
use finlabs_explore.Prelude.{◌≡◌, refl, true, false, none, some, ◌==◌}
use finlabs_explore.Js.Text.{strip_prefix}
use finlabs_explore.Crypto.{sha256_hex, text_encode}
use finlabs_explore.Types.Account.{Account}
use finlabs_explore.App.{boot}
use finlabs_explore.App.Induction.{booted}
use finlabs_explore.World.{World}
use finlabs_explore.Wallet.Backend.Service.{service}
use finlabs_explore.Wallet.Screens.Create
use finlabs_explore.Wallet.Screens.Create.{CreateForm, Session, new_form}
use finlabs_explore.Wallet.Screens.Sign
use finlabs_explore.Wallet.Screens.Sign.{SignScreen, new_sign, sign_verdict}
use finlabs_explore.Wallet.Signing.{signature_text}
use finlabs_explore.Wallet.Answering.{prefixed-filled}
use finlabs_explore.Wallet.Starting.{create-sign}
use finlabs_explore.Tests.Toy.{toy, packages, packages-IsStandard}
use finlabs_explore.Tests.Cases.{lenient}
use finlabs_explore.Tests.Joining.{stamp, valid, free}

plain : strip_prefix "0x" (sha256_hex packages new_sign.message) ≡ none
unfolding strip_prefix sha256_hex text_encode
plain = refl

filled : (account : Account) → (signature_text packages account new_sign.message == "") ≡ false
unfolding text_encode
filled account = prefixed-filled "1" "" _

create-sign_example :
    (session : Session) × (after : SignScreen) × (form' : CreateForm) × (w' : World)
    × (Create.create (service toy lenient stamp) new_form (boot toy) ≡ ((some session, form'), w'))
    × ((Sign.sign packages (service toy lenient stamp) session.key new_sign w').0 ≡ after)
    × (after.error ≡ none)
    × (sign_verdict packages session.key after ≡ some true)
create-sign_example =
    create-sign toy lenient stamp new_form new_sign (boot toy) packages-IsStandard
      (λ request. refl, λ request response. refl) (booted refl) valid free plain filled
