-- ===== src/Ledger.antt =====
-- standin-service/src/ledger.ts: the state-commitment chain, the transaction log and its proofs.
pub mod Merkle
pub mod Proofs
pub mod History
pub mod Aligned
use mathlib.Core.Option
use finlabs_explore.Prelude.{
  ℕ, zero, suc, String, Option, none, some, List, [], ◌∷◌, ◌++◌, map, length, present, or_default,
  ◌==◌, if◌then◌else◌,
}
use finlabs_explore.Js.Dict.{Dict, get, put}
use finlabs_explore.Js.Text.{◌+ₛ◌}
use finlabs_explore.Json.{Json, Fields, arr, obj, text, field, end, items_of, canonical}
use finlabs_explore.Crypto.{sha256_hex}
use finlabs_explore.Types.Credential.{Vc}
use finlabs_explore.Credentials.Signing.{vc_json}
use finlabs_explore.Types.Transaction.{
  StateReference, mint, transfer, sender, receiver, TokenTransaction, LedgerAnchor, TransactionLog,
  ProofDetails, Leaf, Ledger, Recorded, MintRecord, TransferRecord, Operation,
}
use finlabs_explore.World.{World, Exec, pure, modify, ◌>>=◌, ◌>>◌, random_uuid, now_iso}
use finlabs_explore.World.Env.{Env}
use Merkle.{merkle_levels, merkle_root, proof_path}

module _ (e : Env) where
  -- `sha256Hex(canonical(input))` over the six fields of the source's object
  unfoldable pub next_commitment :
      (previous tx_id token_id owner_did claims_digest timestamp : String) → String
  next_commitment previous tx_id token_id owner_did claims_digest timestamp =
      sha256_hex e.packages (
        canonical (
          obj (
            field "previousCommitment" (text previous) (
              field "txId" (text tx_id) (
                field "tokenId" (text token_id) (
                  field "ownerDid" (text owner_did) (
                    field "claimsDigest" (text claims_digest)
                      (field "timestamp" (text timestamp) end))))))))

  unfoldable pub claims_digest : Option (List Vc) → String
  claims_digest claims =
      sha256_hex e.packages (canonical (arr (items_of (map vc_json (or_default claims [])))))

  unfoldable pub add_leaf : String → Fields → Exec (Unit {0})
  unfolding ◌>>=◌
  add_leaf tx_id leaf_data = modify (λ w. record w {
    ledger = record w.ledger {
      leaves =
          w.ledger.leaves
          ++ record { tx_id = tx_id; leaf_hash = sha256_hex e.packages (canonical (obj leaf_data)) }
            ∷ [];
    };
  })

  anchor_now : Exec LedgerAnchor
  unfolding ◌>>=◌ random_uuid now_iso
  anchor_now = do
    uuid ← random_uuid e
    now ← now_iso e
    pure (record {
      chain = "wayfinder-standin";
      network = "devnet";
      tx_hash = "0x" +ₛ sha256_hex e.packages ("anchor-" +ₛ uuid);
      timestamp = now;
    })

  -- The three writes of `buildLog`.
  unfoldable pub file_transaction : TransactionLog → TokenTransaction → Ledger → Ledger
  file_transaction log token_tx ledger = record ledger {
    tx_logs = put ledger.tx_logs log.tx_id log;
    token_tx_by_id = put ledger.token_tx_by_id token_tx.token_tx_id token_tx;
    history_by_token = put ledger.history_by_token token_tx.token_id (
        or_default (get ledger.history_by_token token_tx.token_id) [] ++ token_tx.token_tx_id ∷ []);
  }

  unfoldable pub build_log : (tx_id initiator : String) → TokenTransaction → Exec TransactionLog
  unfolding ◌>>=◌ random_uuid now_iso anchor_now file_transaction
  build_log tx_id initiator token_tx = do
    now ← now_iso e
    proof_uuid ← random_uuid e
    anchor ← anchor_now
    let log : TransactionLog = record {
      tx_id = tx_id;
      initiator = initiator;
      token_transactions =
          record {
            token_tx_id = token_tx.token_tx_id;
            token_id = token_tx.token_id;
            operation = token_tx.operation;
          }
          ∷ [];
      status = "completed";
      timestamps = record { submitted = now; started = now; completed = now; finalized = now };
      proof_id = "urn:uuid:proof-" +ₛ proof_uuid;
      proof_profile = "merkle";
      ledger_anchors = anchor ∷ [];
    }
    modify (λ w. record w { ledger = file_transaction log token_tx w.ledger })
    pure log

  -- The token transaction that `recordMint` writes.
  unfoldable pub mint_transaction :
      MintRecord → (tx_id token_tx_uuid state_commitment now : String) → TokenTransaction
  mint_transaction input tx_id token_tx_uuid state_commitment now = record {
    token_tx_id = "urn:uuid:tokentx-" +ₛ token_tx_uuid;
    tx_id = tx_id;
    token_id = input.token_id;
    operation = mint;
    from_account = none;
    to_account = some input.owner_did;
    amount = none;
    participants = record { account_id = input.owner_did; role = receiver } ∷ [];
    state_before = none;
    state_after = record {
      state_commitment = state_commitment;
      previous_commitment = none;
      last_tx_id = none;
      state_version = some 1;
    };
    timestamp = now;
  }

  unfoldable pub record_mint : MintRecord → Exec Recorded
  unfolding ◌>>=◌ random_uuid now_iso build_log add_leaf mint_transaction
  record_mint input = do
    uuid ← random_uuid e
    now ← now_iso e
    let tx_id = "urn:uuid:tx-" +ₛ uuid
    let state_commitment =
        next_commitment "" uuid input.token_id input.owner_did input.claims_digest now
    token_tx_uuid ← random_uuid e
    build_log tx_id input.owner_did
        (mint_transaction input tx_id token_tx_uuid state_commitment now)
    add_leaf tx_id (
        field "txId" (text tx_id) (
          field "operation" (text "mint") (
            field "tokenId" (text input.token_id)
              (field "stateAfter" (text state_commitment) (field "timestamp" (text now) end)))))
    pure (record { tx_id = tx_id; state_commitment = state_commitment })

  -- The token transaction that `recordTransfer` writes.
  unfoldable pub transfer_transaction :
      TransferRecord → (tx_id token_tx_uuid state_commitment now : String) → TokenTransaction
  transfer_transaction input tx_id token_tx_uuid state_commitment now = record {
    token_tx_id = "urn:uuid:tokentx-" +ₛ token_tx_uuid;
    tx_id = tx_id;
    token_id = input.token_id;
    operation = transfer;
    from_account = some input.from_did;
    to_account = some input.to_did;
    amount = some (record { amount = "1"; unit = "token" });
    participants =
        record { account_id = input.from_did; role = sender }
        ∷ record { account_id = input.to_did; role = receiver }
        ∷ [];
    state_before = some (record {
      state_commitment = input.previous_commitment;
      previous_commitment = none;
      last_tx_id = none;
      state_version = none;
    });
    state_after = record {
      state_commitment = state_commitment;
      previous_commitment = some input.previous_commitment;
      last_tx_id = some tx_id;
      state_version = some 2;
    };
    timestamp = now;
  }

  unfoldable pub record_transfer : TransferRecord → Exec Recorded
  unfolding ◌>>=◌ random_uuid now_iso build_log add_leaf transfer_transaction
  record_transfer input = do
    uuid ← random_uuid e
    now ← now_iso e
    let state_commitment =
        next_commitment input.previous_commitment uuid input.token_id input.to_did
          input.claims_digest now
    let tx_id = "urn:uuid:tx-" +ₛ uuid
    token_tx_uuid ← random_uuid e
    build_log tx_id input.from_did
        (transfer_transaction input tx_id token_tx_uuid state_commitment now)
    add_leaf tx_id (
        field "txId" (text tx_id) (
          field "operation" (text "transfer") (
            field "tokenId" (text input.token_id) (
              field "stateBefore" (text input.previous_commitment)
                (field "stateAfter" (text state_commitment) (field "timestamp" (text now) end))))))
    pure (record { tx_id = tx_id; state_commitment = state_commitment })

unfoldable pub get_transaction : Ledger → String → Option TransactionLog
get_transaction ledger tx_id = get ledger.tx_logs tx_id

unfoldable pub token_transactions : Ledger → String → List TokenTransaction
token_transactions ledger token_id =
    present (map (get ledger.token_tx_by_id) (or_default (get ledger.history_by_token token_id) []))

-- `leaves.findIndex((l) => l.txId === txId)`, with the leaf found; `i` counts.
unfoldable pub find_leaf : ℕ → String → List Leaf → Option (ℕ × Leaf)
find_leaf i tx_id [] = none
find_leaf i tx_id (l ∷ ls) = if l.tx_id == tx_id then some (i, l) else find_leaf (suc i) tx_id ls

abbrev pub leaf_hashes : List Leaf → List String
leaf_hashes = map (λ l. l.leaf_hash)

-- The answer of `getProof`, from the leaf found and the levels of the tree.
unfoldable pub proof_details : String → ℕ × Leaf → List (List String) → ProofDetails
proof_details tx_id (leaf_index, leaf) levels = record {
  tx_id = tx_id;
  leaf_hash = leaf.leaf_hash;
  merkle_root = merkle_root levels;
  proof_path = proof_path levels leaf_index;
  leaf_index = leaf_index;
  proof_status = "proven";
  algorithm = "sha256";
}

unfoldable pub get_proof : Env → Ledger → String → Option ProofDetails
unfolding find_leaf proof_details
get_proof e ledger tx_id = Option.bind (find_leaf 0 tx_id ledger.leaves) λ found.
    Option.map (proof_details tx_id found) (merkle_levels e.packages (leaf_hashes ledger.leaves))
