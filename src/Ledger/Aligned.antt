-- ===== src/Ledger/Aligned.antt =====
-- `txLogs` and `leaves` of standin-service/src/ledger.ts beside each other.
use text.Mathlib.TextLemmas.{append_cancel_left}
use finlabs_explore.Prelude.{
  ℕ, ◌+◌, ◌≤◌, ◌<◌, String, ◌≡◌, refl, ap, sym, ◌∙◌, Bool-cases, Option-cases, inl, inr, none, some,
  List, [], ◌∷◌, ◌++◌, map, arith, ◌==◌, eq_iff, if◌then◌else◌,
}
use finlabs_explore.Js.Dict.{get, get-put, put-fresh}
use finlabs_explore.Js.Text.{◌+ₛ◌}
use finlabs_explore.Types.Transaction.{TransactionLog, TokenTransaction, Ledger}
use finlabs_explore.Ledger.{file_transaction}
use finlabs_explore.World.Env.{Env, IsFaithful}

abbrev pub tx_id_of : Env → ℕ → String
tx_id_of e n = "urn:uuid:tx-" +ₛ e.uuid n

-- The transactions that have a leaf, and those that have a log, in the order in which they were written.
abbrev pub proved_ids : Ledger → List String
proved_ids ledger = map (λ l. l.tx_id) ledger.leaves

abbrev pub logged_ids : Ledger → List String
logged_ids ledger = map (λ entry. entry.0) ledger.tx_logs.entries

abbrev pub count : String → List String → ℕ
count id [] = 0
count id (x ∷ xs) = (if x == id then 1 else 0) + count id xs

count-append : (id : String) (xs ys : List String) → count id (xs ++ ys) ≡ count id xs + count id ys
count-append id [] ys = omega arith
count-append id (x ∷ xs) ys = omega (arith, count-append id xs ys)

map-append {ℓ} :
    {A : Type ℓ} (f : A → String) (xs ys : List A) → map f (xs ++ ys) ≡ map f xs ++ map f ys
map-append f [] ys = refl
map-append f (x ∷ xs) ys = ap (λ rest. f x ∷ rest) (map-append f xs ys)

-- Each transaction that is logged has one leaf, and the leaves have the order of the logs. Its id was made
-- from one of the UUIDs drawn so far.
pub record IsAlignedBy (e : Env) (uuids : ℕ) (ledger : Ledger) : Type 0 where
  pub aligned : proved_ids ledger ≡ logged_ids ledger
  pub once : (id : String) → count id (proved_ids ledger) ≤ 1
  pub drawn :
      (id : String) (log : TransactionLog)
      → get ledger.tx_logs id ≡ some log
      → (n : ℕ) × (id ≡ tx_id_of e n) × (n < uuids)

pub aligned_later :
    (e : Env) (n m : ℕ) (ledger : Ledger) → n ≤ m → IsAlignedBy e n ledger → IsAlignedBy e m ledger
aligned_later e n m ledger le h = record {
  aligned = h.aligned;
  once = h.once;
  drawn = λ id log at. let (k, same, below) = h.drawn id log at in (k, same, omega arith);
}

count-lookup :
    (id : String) (entries : List (String × TransactionLog))
    → get (record { entries = entries }) id ≡ none
    → count id (map (λ entry. entry.0) entries) ≡ 0
unfolding get
count-lookup id [] h = refl
count-lookup id ((j, log) ∷ m) h = elim (Bool-cases (j == id)) [
  | inl same ↦ absurd (cc (rw same at h))
  | inr other ↦ rw other (omega (arith, count-lookup id m (rw other at h)))
]

-- The id of a new transaction has no log yet.
fresh_tx_id :
    (e : Env) (f : IsFaithful e) (n k : ℕ) (ledger : Ledger)
    → n ≤ k
    → IsAlignedBy e n ledger
    → get ledger.tx_logs (tx_id_of e k) ≡ none
fresh_tx_id e f n k ledger le h = elim (Option-cases (get ledger.tx_logs (tx_id_of e k))) [
  | inl fresh ↦ fresh
  | inr (log, there) ↦
      let (j, same, below) = h.drawn (tx_id_of e k) log there in
      let number : k ≡ j =
        f.uuid_injective _ _ (append_cancel_left "urn:uuid:tx-" (e.uuid k) (e.uuid j) same) in
      absurd (omega (arith, number))
]

-- A transaction with a new id is filed, and its leaf is added.
pub after_recording :
    (e : Env) (f : IsFaithful e) (n k m : ℕ) (ledger : Ledger) (log : TransactionLog)
    (tx : TokenTransaction) (leaf_hash : String)
    → n ≤ k
    → k < m
    → log.tx_id ≡ tx_id_of e k
    → IsAlignedBy e n ledger
    → IsAlignedBy e m (record (file_transaction e log tx ledger) {
      leaves = ledger.leaves ++ record { tx_id = tx_id_of e k; leaf_hash = leaf_hash } ∷ [];
    })
unfolding file_transaction
after_recording e f n k m ledger log tx leaf_hash le lt name h =
    let fresh = fresh_tx_id e f n k ledger le h in
    let unlogged : count (tx_id_of e k) (proved_ids ledger) ≡ 0 =
      ap (count (tx_id_of e k)) h.aligned
      ∙ count-lookup (tx_id_of e k) ledger.tx_logs.entries fresh in
    record {
      aligned =
          map-append (λ l. l.tx_id) ledger.leaves _
          ∙ ap (λ ids. ids ++ tx_id_of e k ∷ []) h.aligned
          ∙ sym (
              ap (map (λ entry. entry.0))
                (put-fresh ledger.tx_logs log.tx_id log (ap (get ledger.tx_logs) name ∙ fresh))
              ∙ map-append (λ entry. entry.0) ledger.tx_logs.entries _
              ∙ ap (λ id. logged_ids ledger ++ id ∷ []) name);
      once = λ id. elim (Bool-cases (tx_id_of e k == id)) [
        | inl same ↦
            let at : tx_id_of e k ≡ id = (eq_iff _ _).0 same in
            rw (map-append, count-append, same)
              (omega (arith, ap (λ i. count i (proved_ids ledger)) at, unlogged))
        | inr other ↦ rw (map-append, count-append, other) (omega (arith, h.once id))
      ];
      drawn = λ id found at. elim (Bool-cases (log.tx_id == id)) [
        | inl same ↦ (k, sym ((eq_iff _ _).0 same) ∙ name, lt)
        | inr other ↦
            let before : get ledger.tx_logs id ≡ some found = rw (get-put, other) at at in
            let (j, is, below) = h.drawn id found before in (j, is, omega arith)
      ];
    }
