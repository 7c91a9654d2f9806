-- ===== src/Ledger/History.antt =====
-- The transactions that standin-service/src/ledger.ts lists for a token, read one after the other.
use mathlib.Core.List.{Memᴰ}
use finlabs_explore.Prelude.{
  String, ◌≡◌, refl, ap, subst, ◌∙◌, false, ◌&&◌, Bool-cases, Option-cases, ◌⊎◌, inl, inr, Option,
  none, some, List, [], ◌∷◌, ◌++◌, map, present, or_default, ◌==◌, eq_iff, if◌then◌else◌,
}
use finlabs_explore.Js.Dict.{Dict, get, put, get-put, get-put_same}
use finlabs_explore.Types.Transaction.{
  Operation, mint, transfer, StateReference, TokenTransaction, TransactionLog, Ledger,
}
use finlabs_explore.World.Env.{Env}
use finlabs_explore.Ledger.{file_transaction, token_transactions}

-- What a token's transactions say of it: that there is none, who owns it under which commitment, or that
-- they contradict each other.
pub data Standing : Type 0 where
  absent : Standing
  owned : (owner commitment : String) → Standing
  broken : Standing

abbrev opened : Operation → Option StateReference → Option String → String → Standing
opened mint none (some to_did) after = owned to_did after
opened _ _ _ after = broken

abbrev continued :
    (owner commitment : String)
    → Operation
    → (from : Option String) → Option StateReference
    → (to_did : Option String) → String
    → Standing
continued owner commitment transfer (some from) (some before) (some to_did) after =
    if from == owner && before.state_commitment == commitment then owned to_did after else broken
continued owner commitment _ _ _ _ after = broken

-- A mint comes first, and a transfer is from the owner and continues from the last commitment.
unfoldable pub advance : Standing → TokenTransaction → Standing
advance absent tx =
    opened tx.operation tx.state_before tx.to_account tx.state_after.state_commitment
advance (owned owner commitment) tx =
    continued owner commitment tx.operation tx.from_account tx.state_before tx.to_account
      tx.state_after.state_commitment
advance broken tx = broken

unfoldable pub replay_from : Standing → List TokenTransaction → Standing
unfolding advance
replay_from standing [] = standing
replay_from standing (tx ∷ txs) = replay_from (advance standing tx) txs

-- The transactions from the oldest to the latest.
unfoldable pub replay : List TokenTransaction → Standing
unfolding replay_from
replay txs = replay_from absent txs

replay_from-append :
    (standing : Standing) (txs : List TokenTransaction) (tx : TokenTransaction)
    → replay_from standing (txs ++ tx ∷ []) ≡ advance (replay_from standing txs) tx
unfolding replay_from
replay_from-append standing [] tx = refl
replay_from-append standing (t ∷ txs) tx = replay_from-append (advance standing t) txs tx

pub replay-append :
    (txs : List TokenTransaction) (tx : TokenTransaction)
    → replay (txs ++ tx ∷ []) ≡ advance (replay txs) tx
unfolding replay
replay-append txs tx = replay_from-append absent txs tx

-- The ids of a token's transactions.
abbrev pub history : Ledger → String → List String
history ledger token_id = or_default (get ledger.history_by_token token_id) []

kept_present :
    (m : Dict TokenTransaction) (k : String) (tx : TokenTransaction) (ids : List String)
    → ((x : String) → Memᴰ x ids → (k == x) ≡ false)
    → present (map (get (put m k tx)) ids) ≡ present (map (get m) ids)
kept_present m k tx [] other = refl
kept_present m k tx (x ∷ ids) other =
    let same : get (put m k tx) x ≡ get m x =
      get-put m k x tx ∙ rw (other x (Memᴰ.head refl)) refl in
    let rest = kept_present m k tx ids (λ y at. other y (Memᴰ.tail at)) in
    rw same (elim (Option-cases (get m x)) [
      | inl missing ↦ rw missing rest
      | inr (t, there) ↦ rw there (ap (◌∷◌ t) rest)
    ])

present-append :
    (f : String → Option TokenTransaction) (ids : List String) (x : String) (tx : TokenTransaction)
    → f x ≡ some tx
    → present (map f (ids ++ x ∷ [])) ≡ present (map f ids) ++ tx ∷ []
present-append f [] x tx h = rw h refl
present-append f (i ∷ ids) x tx h =
    let rest = present-append f ids x tx h in
    elim (Option-cases (f i)) [
      | inl missing ↦ rw missing rest
      | inr (t, there) ↦ rw there (ap (◌∷◌ t) rest)
    ]

-- The ids of a token's transactions after one has been filed.
history-filed :
    (e : Env) (log : TransactionLog) (tx : TokenTransaction) (ledger : Ledger) (id : String)
    → history (file_transaction e log tx ledger) id
      ≡ (if tx.token_id == id then history ledger id ++ tx.token_tx_id ∷ [] else history ledger id)
unfolding file_transaction
history-filed e log tx ledger id = elim (Bool-cases (tx.token_id == id)) [
  | inl same ↦
      rw (get-put, same) (ap (λ i. history ledger i ++ tx.token_tx_id ∷ []) ((eq_iff _ _).0 same))
  | inr other ↦ rw (get-put, other) refl
]

-- Filing a transaction under an id that the histories do not have appends it to its token's list.
pub token_transactions-file_transaction :
    (e : Env) (log : TransactionLog) (tx : TokenTransaction) (ledger : Ledger) (id : String)
    → ((x : String) → Memᴰ x (history ledger id) → (tx.token_tx_id == x) ≡ false)
    → token_transactions (file_transaction e log tx ledger) id ≡ (
        if tx.token_id == id
        then token_transactions ledger id ++ tx ∷ []
        else token_transactions ledger id)
unfolding token_transactions file_transaction
token_transactions-file_transaction e log tx ledger id fresh =
    let txs = ledger.token_tx_by_id in
    let after = put txs tx.token_tx_id tx in
    let old = kept_present txs tx.token_tx_id tx (history ledger id) fresh in
    ap (λ ids. present (map (get after) ids)) (history-filed e log tx ledger id)
    ∙ elim (Bool-cases (tx.token_id == id)) [
      | inl same ↦ rw same (
          present-append (get after) (history ledger id) tx.token_tx_id tx
            (get-put_same txs tx.token_tx_id tx)
          ∙ ap (λ l. l ++ tx ∷ []) old)
      | inr other ↦ rw other old
    ]

Memᴰ-snoc : (x a : String) (ids : List String) → Memᴰ x (ids ++ a ∷ []) → (x ≡ a) ⊎ Memᴰ x ids
Memᴰ-snoc x a [] (Memᴰ.head same) = inl same
Memᴰ-snoc x a [] (Memᴰ.tail at) = elim at [ ]
Memᴰ-snoc x a (i ∷ ids) (Memᴰ.head same) = inr (Memᴰ.head same)
Memᴰ-snoc x a (i ∷ ids) (Memᴰ.tail at) = elim (Memᴰ-snoc x a ids at) [
  | inl same ↦ inl same
  | inr old ↦ inr (Memᴰ.tail old)
]

-- The history that filing a transaction leaves.
pub history-file_transaction :
    (e : Env) (log : TransactionLog) (tx : TokenTransaction) (ledger : Ledger) (id x : String)
    → Memᴰ x (history (file_transaction e log tx ledger) id)
    → (x ≡ tx.token_tx_id) ⊎ Memᴰ x (history ledger id)
history-file_transaction e log tx ledger id x at =
    let filed = subst (Memᴰ x) (history-filed e log tx ledger id) at in
    elim (Bool-cases (tx.token_id == id)) [
      | inl same ↦ Memᴰ-snoc x tx.token_tx_id (history ledger id) (rw same at filed)
      | inr other ↦ inr (rw other at filed)
    ]
