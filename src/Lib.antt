-- ===== src/Lib.antt =====
-- A verification library of the Wayfinder wallet and of its stand-in service.
--
-- The service (standin-service/src) is one process with five stores in memory. A request passes the
-- OpenAPI validator, reaches one handler (handlers.ts) and is answered in an envelope (envelope.ts).
-- Accounts (store.ts) own key pairs and access tokens; the issuer (credentials.ts) signs, verifies and
-- revokes credentials; token classes (tokenclasses.ts) say whether minting needs a credential; tokens
-- (tokens.ts) are minted behind that check and transferred; both are recorded in the ledger (ledger.ts),
-- whose Merkle proofs the browser (app/src/lib/crypto.ts) folds for itself. The validator reads one document
-- that spec.ts merges from three. The wallet (app/src/App.tsx) is five screens below a shell that keeps the
-- session and a journey of milestones; they reach the service through `api` (app/src/lib/client.ts).
--
-- Which file models which part:
--   Prelude, Js      lists and tests; JavaScript's Map, Set and the text functions that are used
--   Json             JSON values, object spread, and `canonical` of credentials.ts and ledger.ts
--   Crypto           standin-service/src/crypto.ts
--   Types            the data types of all five stores
--   World            the state of the process, one field for each store, and actions on it: an action
--                    returns or throws, and what it wrote before it threw stays written
--   Accounts         standin-service/src/store.ts
--   Credentials      standin-service/src/credentials.ts
--   TokenClasses     standin-service/src/tokenclasses.ts
--   Ledger           standin-service/src/ledger.ts
--   Tokens           standin-service/src/tokens.ts
--   Envelope         standin-service/src/envelope.ts
--   Handlers         standin-service/src/handlers.ts
--   App              standin-service/src/app.ts, and the states that requests lead to
--   Spec             standin-service/src/spec.ts
--   Wallet           app/src: lib/crypto.ts (Crypto), lib/types.ts (Types), lib/client.ts (Client, and
--                    Backend, where it is an interface that the service implements), and App.tsx
--                    (Screens, a file for each, and Shell)
--   Tests            the theorems at concrete inputs
-- A function `mintToken` of the source is `mint_token` here; the parts of a long function have names of
-- their own, declared above it.
--
-- What the service takes from outside is the record `Env` (World/Env.antt): the random source, the clock,
-- the packages for hashing, signing and encoding, and the two schema validators. `IsFaithful` states what
-- is documented of them. UUIDs, readings of the clock and keys are numbered as they are drawn.
--
-- Fuel: the loop over the levels of the Merkle tree has as many rounds of fuel as there are leaves; each
-- round leaves fewer hashes. The digits of a number have one round more than the number.
--
-- In the wallet, an event is a click or an edit, and a handler runs from the click to its last `await`
-- before the next event: it sets its screen's busy flag, asks, and resets the flag within one event. What
-- is disabled or not shown cannot be pressed. `toLowerCase` is a parameter.
--
-- Not modelled: handlers of the wallet that run at the same time, and answers that arrive after an edit or
-- a reset; its texts and its markup; reading and parsing the OpenAPI files; start-up and console output.
-- Handlers of the service do not wait, so requests run one after another. Numbers in JSON are kept as their
-- texts; lone surrogates in texts do not occur. A claim has the fields of its type: further fields of a
-- claim that is presented, which the source would sign and check with the others, are left out.
-- `canonicalJson` of app/src/lib/crypto.ts is, word for word, `canonical` of the service and stands here once.
pub mod Prelude
pub mod Js
pub mod Json
pub mod Crypto
pub mod Types
pub mod World
pub mod Accounts
pub mod Credentials
pub mod TokenClasses
pub mod Ledger
pub mod Tokens
pub mod Envelope
pub mod Handlers
pub mod App
pub mod Spec
pub mod Wallet
mod Tests
