-- ===== src/Accounts.antt =====
-- standin-service/src/store.ts: registering an account and the three ways to find one.
pub mod Lookup
use mathlib.Core.Option
use finlabs_explore.Prelude.{String, Bool, Option, none, ◌==◌, if◌then◌else◌}
use finlabs_explore.Js.Dict.{get, has, put}
use finlabs_explore.Js.Text.{◌+ₛ◌}
use finlabs_explore.Crypto.{did_key_from_public_key}
use finlabs_explore.Types.Account.{Account, NewAccount, CreatedAccount, Accounts}
use finlabs_explore.World.{Exec, pure, modify, ◌>>=◌, ◌>>◌, random_uuid, now_iso, random_keypair}
use finlabs_explore.World.Env.{Env}

unfoldable pub address_taken : Accounts → String → Bool
unfolding has
address_taken s address = has s.by_address address

unfoldable pub get_by_address : Accounts → String → Option Account
get_by_address s address = get s.by_address address

-- `address ? byAddress.get(address) : undefined`
follow : Accounts → String → Option Account
follow s address = if address == "" then none else get s.by_address address

unfoldable pub get_by_key_id : Accounts → String → Option Account
unfolding follow
get_by_key_id s key_id = Option.bind (get s.by_key_id key_id) (follow s)

unfoldable pub get_by_token : Accounts → String → Option Account
unfolding follow
get_by_token s token = Option.bind (get s.by_token token) (follow s)

unfoldable pub create_account : Env → NewAccount → Exec CreatedAccount
unfolding ◌>>=◌ random_uuid now_iso random_keypair did_key_from_public_key
create_account e input = do
  keys ← random_keypair e
  let names = did_key_from_public_key e.packages keys.public_key
  key_id ← random_uuid e
  now ← now_iso e
  let account : Account = record {
    address = input.address;
    name = input.name;
    entity_type = input.entity_type;
    did = names.did;
    key_id = key_id;
    public_key_multibase = names.public_key_multibase;
    public_key = keys.public_key;
    private_key = keys.private_key;
    created_at = now;
  }
  modify (λ w. record w {
    accounts = record w.accounts {
      by_address = put w.accounts.by_address account.address account;
      by_key_id = put w.accounts.by_key_id key_id account.address;
    };
  })
  uuid ← random_uuid e
  let access_token = "standin_" +ₛ uuid
  modify (λ w. record w {
    accounts = record w.accounts {
      by_token = put w.accounts.by_token access_token account.address;
    };
  })
  pure (record { account = account; access_token = access_token })
