-- ===== src/Types/TokenClass.antt =====
-- standin-service/src/tokenclasses.ts: the templates of tokens. `metadata` is an open object.
use finlabs_explore.Prelude.{String, Option, List}
use finlabs_explore.Json.{Fields}

pub record ClassIdentity : Type 0 where
  pub id : String
  pub kind : String
  pub roles : Option (List String)

pub record TokenClass : Type 0 where
  pub token_class : String
  pub token_standard : String
  pub name : String
  pub description : Option String
  pub status : String
  pub schema : Fields
  pub identities : List ClassIdentity
  pub metadata : Fields

pub record RegisterTokenClassInput : Type 0 where
  pub token_class : String
  pub token_standard : String
  pub name : String
  pub description : Option String
  pub schema : Option Fields
  pub identities : Option (List ClassIdentity)
  pub metadata : Option Fields
