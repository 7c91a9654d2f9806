-- ===== src/Tests/Chaining.antt =====
-- The theorem on the ledger's histories, after an account, a class and a mint.
use finlabs_explore.Prelude.{none, some, refl}
use finlabs_explore.Js.Dict.{get}
use finlabs_explore.Types.Account.{personal}
use finlabs_explore.Envelope.{RequestContext}
use finlabs_explore.App.{Request, create, register, mint, boot, serve}
use finlabs_explore.App.Induction.{Reachable, booted, served}
use finlabs_explore.App.Chaining.{Reachable-Tells}
use finlabs_explore.Tokens.Chaining.{Tells}
use finlabs_explore.Ledger.{token_transactions}
use finlabs_explore.Ledger.History.{replay}
use finlabs_explore.World.{World}
use finlabs_explore.Tests.Toy.{toy, toy-IsFaithful}
use finlabs_explore.Tests.Cases.{lenient}

abbrev as_alice : RequestContext
as_alice = record {
  id = "i";
  version = "1.0";
  ts = "t";
  msg_id = "m";
  transaction_id = none;
  authorization = some "Bearer standin_1";
}

abbrev signing_up : Request
signing_up = record {
  context = none;
  call = create (record { address = "alice"; name = "Alice"; entity_type = personal });
}

abbrev registering : Request
registering = record {
  context = none;
  call = register (record {
    token_class = "T";
    token_standard = "S";
    name = "N";
    description = none;
    schema = none;
    identities = none;
    metadata = none;
  });
}

abbrev minting : Request
minting = record {
  context = some as_alice;
  call =
      mint
        (record { token_class = "T"; initial_supply = "1"; metadata_name = none; content = none });
}

abbrev pub signed_up : World
signed_up = (serve toy lenient signing_up (boot toy)).1

abbrev registered : World
registered = (serve toy lenient registering signed_up).1

abbrev pub minted_world : World
minted_world = (serve toy lenient minting registered).1

pub signed_up-Reachable : Reachable toy lenient signed_up
signed_up-Reachable = served signing_up (booted refl) refl

pub minted_world-Reachable : Reachable toy lenient minted_world
minted_world-Reachable = served minting (served registering signed_up-Reachable refl) refl

-- The token's id is made from the fifth UUID.
Reachable-Tells_example :
    Tells
      (get minted_world.tokens.by_id "urn:uuid:token-001")
      (replay (token_transactions minted_world.ledger "urn:uuid:token-001"))
Reachable-Tells_example =
    Reachable-Tells toy toy-IsFaithful lenient minted_world "urn:uuid:token-001"
      minted_world-Reachable
