-- ===== src/Types/Account.antt =====
-- standin-service/src/store.ts: accounts and the three maps over them.
use finlabs_explore.Prelude.{String}
use finlabs_explore.Js.Dict.{Dict}
use finlabs_explore.Crypto.Packages.{Bytes}

pub data EntityType : Type 0 where
  personal business : EntityType

pub record Account : Type 0 where
  pub address : String
  pub name : String
  pub entity_type : EntityType
  pub did : String
  pub key_id : String
  pub public_key_multibase : String
  pub public_key : Bytes
  pub private_key : Bytes
  pub created_at : String

pub record NewAccount : Type 0 where
  pub address : String
  pub name : String
  pub entity_type : EntityType

pub record CreatedAccount : Type 0 where
  pub account : Account
  pub access_token : String

-- `by_token` and `by_key_id` lead to addresses.
pub record Accounts : Type 0 where
  pub by_address : Dict Account
  pub by_token : Dict String
  pub by_key_id : Dict String
