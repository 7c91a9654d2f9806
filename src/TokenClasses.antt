-- ===== src/TokenClasses.antt =====
-- standin-service/src/tokenclasses.ts: the registry of token classes, seeded with one KYC-gated class.
use finlabs_explore.Prelude.{String, Bool, true, false, Option, some, List, [], ◌∷◌, or_default}
use finlabs_explore.Js.Dict.{Dict, get, has, put, values}
use finlabs_explore.Json.{Json, text, number, bool, obj, field, end, spread, set_field}
use finlabs_explore.Types.TokenClass.{TokenClass, RegisterTokenClassInput}
use finlabs_explore.Credentials.Signing.{issuer_did}
use finlabs_explore.World.{Exec, pure, modify, ◌>>=◌, ◌>>◌, now_iso}
use finlabs_explore.World.Env.{Env}

string_type : Json
string_type = obj (field "type" (text "string") end)

-- The class that `seed` registers, with the time at which it did.
unfoldable pub prop_deed : Env → (now : String) → TokenClass
unfolding string_type
prop_deed e now = record {
  token_class = "PROP-DEED";
  token_standard = "UNITS-NFT";
  name = "Property Deed";
  description =
      some
        "A tokenized real-world property deed. KYC-gated: minting requires the owner to hold a valid KYC credential.";
  status = "active";
  schema = field "type" (text "object") (
      field "properties"
        (obj (
          field "data"
            (obj (
              field "type" (text "object") (
                field "properties"
                  (obj (field "assetId" string_type (field "propertyAddress" string_type end)))
                  end)))
            end))
        end);
  identities =
      record {
        id = issuer_did e;
        kind = "issuer";
        roles = some ("admin" ∷ "minter" ∷ "compliance" ∷ []);
      }
      ∷ [];
  metadata = field "fungible" (bool false) (
      field "symbol" (text "DEED") (
        field "decimals" (number "0") (
          field "category" (text "real_world_asset") (
            field "requiresKYC" (bool true)
              (field "createdAt" (text now) (field "updatedAt" (text now) end))))));
}

unfoldable pub get_token_class : Dict TokenClass → String → Option TokenClass
get_token_class classes name = get classes name

unfoldable pub list_token_classes : Dict TokenClass → List TokenClass
list_token_classes classes = values classes

unfoldable pub token_class_exists : Dict TokenClass → String → Bool
token_class_exists classes name = has classes name

-- The class that a registration makes.
unfoldable pub new_token_class : Env → RegisterTokenClassInput → (now : String) → TokenClass
unfolding spread set_field
new_token_class e input now = record {
  token_class = input.token_class;
  token_standard = input.token_standard;
  name = input.name;
  description = input.description;
  status = "active";
  schema = or_default input.schema (field "type" (text "object") end);
  identities =
      or_default input.identities (
        record { id = issuer_did e; kind = "issuer"; roles = some ("admin" ∷ "minter" ∷ []) } ∷ []);
  metadata = set_field "updatedAt" (text now) (
      set_field "createdAt" (text now)
        (spread (field "fungible" (bool true) end) (or_default input.metadata end)));
}

unfoldable pub register_token_class : Env → RegisterTokenClassInput → Exec TokenClass
unfolding ◌>>=◌ now_iso
register_token_class e input = do
  now ← now_iso e
  let tc = new_token_class e input now
  modify (λ w. record w { classes = put w.classes tc.token_class tc })
  pure tc
