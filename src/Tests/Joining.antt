-- ===== src/Tests/Joining.antt =====
-- The theorem on creating an account from the wallet, on a service that has just started.
use finlabs_explore.Prelude.{String, ◌≡◌, refl, true, false, none, some}
use finlabs_explore.Js.Dict
use finlabs_explore.Js.Dict.{has}
use finlabs_explore.Types.Account.{Account}
use finlabs_explore.Accounts.{address_taken}
use finlabs_explore.Handlers.Account.{valid_address}
use finlabs_explore.App.{boot}
use finlabs_explore.World.{World}
use finlabs_explore.Wallet.Backend.Service.{service}
use finlabs_explore.Wallet.Screens.Create
use finlabs_explore.Wallet.Screens.Create.{Session, new_form}
use finlabs_explore.Wallet.Joining.{IsSessionOf, input_of, create-IsSessionOf}
use finlabs_explore.Tests.Toy.{toy}
use finlabs_explore.Tests.Cases.{lenient}

abbrev pub stamp : World → String × String
stamp w = ("t", "m")

pub valid : valid_address new_form.address ≡ true
unfolding valid_address
valid = refl

pub free : address_taken (boot toy).accounts new_form.address ≡ false
unfolding address_taken boot has Dict.empty
free = refl

create-IsSessionOf_example :
    (account : Account) × (session : Session) × (w' : World) × (Create.create
        (service toy lenient stamp)
        new_form
        (boot toy)
      ≡ ((some session, record new_form { busy = false; error = none }), w'))
    × IsSessionOf (input_of new_form) account w' session
create-IsSessionOf_example =
    create-IsSessionOf toy lenient stamp new_form (boot toy)
      (λ request. refl, λ request response. refl) valid free
