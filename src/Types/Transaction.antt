-- ===== src/Types/Transaction.antt =====
-- standin-service/src/ledger.ts: transactions, proofs and the ledger's maps.
use finlabs_explore.Prelude.{ℕ, String, Option, List}
use finlabs_explore.Js.Dict.{Dict}
use finlabs_explore.Ledger.Merkle.{ProofPathNode}

pub record StateReference : Type 0 where
  pub state_commitment : String
  pub previous_commitment : Option String
  pub last_tx_id : Option String
  pub state_version : Option ℕ

pub data Operation : Type 0 where
  mint transfer : Operation

pub data Role : Type 0 where
  sender receiver : Role

pub record Participant : Type 0 where
  pub account_id : String
  pub role : Role

pub record Amount : Type 0 where
  pub amount : String
  pub unit : String

pub record TokenTransaction : Type 0 where
  pub token_tx_id : String
  pub tx_id : String
  pub token_id : String
  pub operation : Operation
  pub from_account : Option String
  pub to_account : Option String
  pub amount : Option Amount
  pub participants : List Participant
  pub state_before : Option StateReference
  pub state_after : StateReference
  pub timestamp : String

pub record TokenTxSummary : Type 0 where
  pub token_tx_id : String
  pub token_id : String
  pub operation : Operation

pub record LogTimestamps : Type 0 where
  pub submitted : String
  pub started : String
  pub completed : String
  pub finalized : String

pub record LedgerAnchor : Type 0 where
  pub chain : String
  pub network : String
  pub tx_hash : String
  pub timestamp : String

pub record TransactionLog : Type 0 where
  pub tx_id : String
  pub initiator : String
  pub token_transactions : List TokenTxSummary
  pub status : String
  pub timestamps : LogTimestamps
  pub proof_id : String
  pub proof_profile : String
  pub ledger_anchors : List LedgerAnchor

pub record ProofDetails : Type 0 where
  pub tx_id : String
  pub leaf_hash : String
  pub merkle_root : String
  pub proof_path : List ProofPathNode
  pub leaf_index : ℕ
  pub proof_status : String
  pub algorithm : String

pub record Leaf : Type 0 where
  pub tx_id : String
  pub leaf_hash : String

-- `history_by_token` leads from a token to the ids of its transactions, oldest first.
pub record Ledger : Type 0 where
  pub tx_logs : Dict TransactionLog
  pub token_tx_by_id : Dict TokenTransaction
  pub history_by_token : Dict (List String)
  pub leaves : List Leaf

-- What `recordMint` and `recordTransfer` return.
pub record Recorded : Type 0 where
  pub tx_id : String
  pub state_commitment : String

pub record MintRecord : Type 0 where
  pub token_id : String
  pub owner_did : String
  pub claims_digest : String

pub record TransferRecord : Type 0 where
  pub token_id : String
  pub from_did : String
  pub to_did : String
  pub previous_commitment : String
  pub claims_digest : String
