-- ===== src/Accounts/Lookup.antt =====
-- An account that standin-service/src/store.ts has created is found again in all three ways.
use mathlib.Core.Option
use finlabs_explore.Prelude.{
  suc, String, ◌≡◌, ◌≢◌, refl, true, false, Bool-cases, inl, inr, some, ◌==◌, eq_iff, if◌then◌else◌,
}
use finlabs_explore.Js.Text.{◌+ₛ◌}
use finlabs_explore.Js.Dict.{get-put}
use finlabs_explore.Types.Account.{NewAccount, CreatedAccount}
use finlabs_explore.Accounts.{get_by_address, get_by_key_id, get_by_token, create_account}
use finlabs_explore.World.{World, returned}
use finlabs_explore.World.Env.{Env}

-- What `createAccount` leaves behind.
pub record IsRegistered (input : NewAccount) (w w' : World) (c : CreatedAccount) : Type 0 where
  pub by_token : get_by_token w'.accounts c.access_token ≡ some c.account
  pub by_key_id : get_by_key_id w'.accounts c.account.key_id ≡ some c.account
  pub by_address :
      (address : String)
      → get_by_address w'.accounts address
        ≡ (if input.address == address then some c.account else get_by_address w.accounts address)
  pub named : c.account.name ≡ input.name
  pub addressed : c.account.address ≡ input.address
  pub typed : c.account.entity_type ≡ input.entity_type

itself : (s : String) → (s == s) ≡ true
itself s = (eq_iff s s).1 refl

-- `createAccount` always returns an account. It is found under the access token that comes with it, under
-- its key id and under its address, with the address, the name and the entity type asked for; every other
-- address finds what it found before.
pub create_account-IsRegistered :
    (e : Env) (input : NewAccount) (w : World)
    → input.address ≢ ""
    → (c : CreatedAccount) × (w' : World) × (create_account e input w ≡ (returned c, w'))
      × IsRegistered input w w' c
unfolding create_account get_by_token get_by_key_id get_by_address Option.bind
create_account-IsRegistered e input w there =
    let filled : (input.address == "") ≡ false = elim (Bool-cases (input.address == "")) [
      | inl empty ↦ absurd (there ((eq_iff input.address "").0 empty))
      | inr filled ↦ filled
    ] in
    (
      _,
      _,
      refl,
      record {
        by_token =
            rw
              (
                get-put,
                itself ("standin_" +ₛ e.uuid (suc w.uuids)),
                filled,
                get-put,
                itself input.address,
              )
              refl;
        by_key_id =
            rw (get-put, itself (e.uuid w.uuids), filled, get-put, itself input.address) refl;
        by_address = λ address. get-put w.accounts.by_address input.address address _;
        named = refl;
        addressed = refl;
        typed = refl;
      },
    )
