-- ===== src/Tokens.antt =====
-- standin-service/src/tokens.ts: minting behind the compliance hook, reading, and transfer.
pub mod Hook
pub mod Minting
pub mod Moving
pub mod Index
pub mod Ownership
pub mod Listing
pub mod Transferring
pub mod Chaining
use mathlib.Core.List.{head?}
use mathlib.Core.Option
use finlabs_explore.Prelude.{
  String, Bool, true, false, not, Option, none, some, List, [], ◌∷◌, map, find, present, or_default,
  ◌==◌, if◌then◌else◌,
}
use finlabs_explore.Js.Dict.{Dict, get, put}
use finlabs_explore.Js.StrSet
use finlabs_explore.Js.StrSet.{StrSet}
use finlabs_explore.Js.Text.{◌+ₛ◌}
use finlabs_explore.Json.{Json, null, bool, number, text, arr, obj, end, field_of}
use finlabs_explore.Types.Credential.{Vc, Identity}
use finlabs_explore.Types.TokenClass.{TokenClass}
use finlabs_explore.Types.Token.{
  TokenInstance, Tokens, MintInput, MintResult, minted, refused, class_not_found,
  compliance_check_failed, TransferInput, TransferResult, transferred, rejected, token_not_found,
  not_owner,
}
use finlabs_explore.TokenClasses.{get_token_class}
use finlabs_explore.Credentials.{valid_credential_for}
use finlabs_explore.Credentials.Signing.{issuer_did}
use finlabs_explore.Ledger.{claims_digest, record_mint, record_transfer}
use finlabs_explore.World.{Exec, pure, throw, gets, modify, ◌>>=◌, ◌>>◌, random_uuid, now_iso}
use finlabs_explore.World.Env.{Env}

-- JavaScript's truth of a value that may be missing.
unfoldable pub truthy : Option Json → Bool
truthy none = false
truthy (some null) = false
truthy (some (bool b)) = b
truthy (some (number n)) = not (n == "0")
truthy (some (text s)) = not (s == "")
truthy (some (arr _)) = true
truthy (some (obj _)) = true

-- `a ?? d` on a JSON value: null counts as missing.
unfoldable pub or_nullish : Option Json → Json → Json
or_nullish none d = d
or_nullish (some null) d = d
or_nullish (some v) d = v

unfoldable pub requires_kyc : TokenClass → Bool
unfolding truthy field_of
requires_kyc tc = truthy (field_of "requiresKYC" tc.metadata)

-- The instance that a mint makes.
unfoldable pub new_token :
    Env → MintInput → TokenClass → (claim : Option Vc) → (now token_uuid : String) → TokenInstance
unfolding truthy or_nullish field_of
new_token e input tc claim now token_uuid = record {
  context = "https://finternet-io.github.io/specs/schemas/token/v1/context.jsonld";
  kind = "Token";
  id = "urn:uuid:token-" +ₛ token_uuid;
  metadata = record {
    token_standard = tc.token_standard;
    name = or_default input.name tc.name;
    symbol = or_nullish (field_of "symbol" tc.metadata) (text "TKN");
    decimals = or_nullish (field_of "decimals" tc.metadata) (number "0");
    fungibility = if truthy (field_of "fungible" tc.metadata) then "fungible" else "nonFungible";
    token_class = tc.token_class;
    status = "active";
    flags = record { transferable = true; transactable = true; locked = false; revocable = false };
    created_at = now;
    updated_at = now;
  };
  content = or_default input.content end;
  claims = Option.map (λ vc. vc ∷ []) claim;
  identities =
      record {
        id = or_default (Option.map (λ i. i.id) (head? tc.identities)) (issuer_did e);
        kind = "issuer";
      }
      ∷ record { id = input.owner_did; kind = "owner" }
      ∷ [];
  state = record {
    status = "active";
    effective_from = now;
    total_supply = input.initial_supply;
    circulating_supply = input.initial_supply;
    state_commitment = none;
  };
}

-- `ownerToIds.get(owner) ?? new Set()`, with the id added and written back.
unfoldable pub index_owner : String → String → Dict StrSet → Dict StrSet
index_owner owner_did token_id index =
    put index owner_did (StrSet.add (or_default (get index owner_did) StrSet.empty) token_id)

unfoldable pub with_commitment : String → TokenInstance → TokenInstance
with_commitment commitment token = record token {
  state = record token.state { state_commitment = some commitment };
}

-- From `byId.set` to the end of `mintToken`. The instance is one object: the commitment that is set
-- last shows in the map too.
unfoldable pub store_token : Env → MintInput → TokenInstance → Exec MintResult
unfolding ◌>>=◌ index_owner with_commitment
store_token e input token = do
  modify (λ w. record w {
    tokens = record {
      by_id = put w.tokens.by_id token.id token;
      owner_to_ids = index_owner input.owner_did token.id w.tokens.owner_to_ids;
    };
  })
  recorded ← record_mint e (record {
    token_id = token.id;
    owner_did = input.owner_did;
    claims_digest = claims_digest e token.claims;
  })
  let committed = with_commitment recorded.state_commitment token
  modify
      (λ w. record w { tokens = record w.tokens { by_id = put w.tokens.by_id token.id committed } })
  pure (minted committed)

-- `mintToken` once the compliance hook has passed.
unfoldable pub mint_compliant : Env → MintInput → TokenClass → Option Vc → Exec MintResult
unfolding ◌>>=◌ now_iso random_uuid new_token store_token
mint_compliant e input tc claim = do
  now ← now_iso e
  token_uuid ← random_uuid e
  let token = new_token e input tc claim now token_uuid
  if e.validate_token token
      then store_token e input token
      else throw ("minted token failed schema validation: " +ₛ e.token_errors token)

unfoldable pub no_credential_message : TokenClass → String → String
no_credential_message tc owner_did =
    "Minting a '"
    +ₛ (tc.token_class
        +ₛ ("' token requires a valid KYC credential; holder "
            +ₛ (owner_did +ₛ " holds none. Issue (and don't revoke) a credential first.")))

unfoldable pub mint_in_class : Env → MintInput → TokenClass → Exec MintResult
unfolding ◌>>=◌ requires_kyc valid_credential_for
mint_in_class e input tc =
    if requires_kyc tc
    then (do
      credential ← valid_credential_for e input.owner_did
      elim credential [
        | none ↦ pure (refused compliance_check_failed (no_credential_message tc input.owner_did))
        | some c ↦ mint_compliant e input tc (head? c.claims)
      ])
    else mint_compliant e input tc none

unfoldable pub mint_token : Env → MintInput → Exec MintResult
unfolding ◌>>=◌ get_token_class mint_in_class
mint_token e input = do
  known ← gets (λ w. get_token_class w.classes input.token_class)
  elim known [
    | none ↦ pure (refused class_not_found ("Unknown token class '" +ₛ (input.token_class +ₛ "'")))
    | some tc ↦ mint_in_class e input tc
  ]

unfoldable pub get_token : Tokens → String → Option TokenInstance
get_token tokens id = get tokens.by_id id

unfoldable pub tokens_for_owner : Tokens → String → List TokenInstance
tokens_for_owner tokens owner_did = elim (get tokens.owner_to_ids owner_did) [
  | none ↦ []
  | some ids ↦ present (map (get tokens.by_id) ids.items)
]

-- `token.identities.find((i) => i.type === 'owner')`
unfoldable pub owner_of : TokenInstance → Option String
owner_of token = Option.map (λ i. i.id) (find (λ i. i.kind == "owner") token.identities)

-- `ownerIdent.id = toDid`: the first owner in the list is written to.
unfoldable pub set_owner : String → List Identity → List Identity
set_owner to_did [] = []
set_owner to_did (i ∷ is) =
    if i.kind == "owner" then record i { id = to_did } ∷ is else i ∷ set_owner to_did is

-- `ownerToIds.get(owner)?.delete(id)`
unfoldable pub unindex_owner : String → String → Dict StrSet → Dict StrSet
unindex_owner owner_did token_id index = elim (get index owner_did) [
  | none ↦ index
  | some ids ↦ put index owner_did (StrSet.delete ids token_id)
]

-- The token after a transfer.
unfoldable pub moved_token : TokenInstance → (to_did commitment now : String) → TokenInstance
unfolding set_owner
moved_token token to_did commitment now = record token {
  identities = set_owner to_did token.identities;
  state = record token.state { state_commitment = some commitment };
  metadata = record token.metadata { updated_at = now };
}

-- `transferToken` once the caller is known to be the owner.
unfoldable pub move_token : Env → TransferInput → TokenInstance → Exec TransferResult
unfolding ◌>>=◌ now_iso moved_token index_owner unindex_owner
move_token e input token = do
  recorded ← record_transfer e (record {
    token_id = token.id;
    from_did = input.from_did;
    to_did = input.to_did;
    previous_commitment = or_default token.state.state_commitment "";
    claims_digest = claims_digest e token.claims;
  })
  now ← now_iso e
  let moved = moved_token token input.to_did recorded.state_commitment now
  modify (λ w. record w {
    tokens = record {
      by_id = put w.tokens.by_id input.token_id moved;
      owner_to_ids =
          index_owner input.to_did token.id
            (unindex_owner input.from_did token.id w.tokens.owner_to_ids);
    };
  })
  pure (transferred recorded.tx_id moved)

unfoldable pub is_owned_by : TokenInstance → String → Bool
is_owned_by token did = elim (owner_of token) [ none ↦ false | some owner ↦ owner == did ]

unfoldable pub transfer_token : Env → TransferInput → Exec TransferResult
unfolding ◌>>=◌ is_owned_by move_token
transfer_token e input = do
  found ← gets (λ w. get w.tokens.by_id input.token_id)
  elim found [
    | none ↦ pure (rejected token_not_found ("No token '" +ₛ (input.token_id +ₛ "'")))
    | some token ↦
        if is_owned_by token input.from_did
        then move_token e input token
        else pure (rejected not_owner ("Caller does not own token '" +ₛ (input.token_id +ₛ "'")))
  ]
