-- ===== src/Tokens/Chaining.antt =====
-- What standin-service/src/ledger.ts records of a token and what standin-service/src/tokens.ts stores of it
-- agree, after every request.
use mathlib.Core.List.{Memᴰ}
use mathlib.Core.Option
use text.Mathlib.TextLemmas.{append_cancel_left}
use finlabs_explore.Prelude.{
  ℕ, suc, ◌<◌, ◌≤◌, String, ◌≡◌, refl, ap, sym, subst, ◌∙◌, false, Bool-cases, Option, none, some,
  Option-cases, or_default, inl, inr, List, arith, ◌==◌, eq_iff, eq_refl, if◌then◌else◌,
}
use finlabs_explore.Js.Dict.{Dict, get, get-put}
use finlabs_explore.Js.Text.{◌+ₛ◌}
use finlabs_explore.Types.Credential.{Vc}
use finlabs_explore.Types.TokenClass.{TokenClass}
use finlabs_explore.Types.Token.{TokenInstance, MintInput, TransferInput}
use finlabs_explore.Types.Transaction.{
  TokenTransaction, TransactionLog, Ledger, Leaf, TransferRecord,
}
use finlabs_explore.Tokens.{
  new_token, mint_compliant, owner_of, is_owned_by, transfer_token, moved_token, with_commitment,
}
use finlabs_explore.Tokens.Index.{is_owned_by→owner_of, owner_of-moved_token}
use finlabs_explore.Tokens.Ownership.{IsIndexed, token_name, get-put_twice}
use finlabs_explore.Ledger.{
  record_mint, record_transfer, file_transaction, token_transactions, transfer_transaction,
  next_commitment, claims_digest,
}
use finlabs_explore.Ledger.History.{
  Standing, absent, owned, advance, replay, replay-append, history,
  token_transactions-file_transaction, history-file_transaction,
}
use finlabs_explore.World.{World}
use finlabs_explore.World.Env.{Env, IsFaithful}

abbrev pub tx_name : Env → ℕ → String
tx_name e n = "urn:uuid:tokentx-" +ₛ e.uuid n

-- What the replay of a token's transactions tells is what is stored of it.
abbrev pub Tells : Option TokenInstance → Standing → Type 0
Tells none standing = standing ≡ absent
Tells (some t) standing =
    (owner : String) × (commitment : String) × (owner_of t ≡ some owner)
    × (t.state.state_commitment ≡ some commitment)
    × (standing ≡ owned owner commitment)

-- Each id in a history was made from one of the UUIDs drawn so far, and each history tells its token.
pub record IsChainedBy (e : Env) (uuids : ℕ) (by_id : Dict TokenInstance) (ledger : Ledger)
    : Type 0 where
  pub drawn :
      (id x : String) → Memᴰ x (history ledger id) → (n : ℕ) × (x ≡ tx_name e n) × (n < uuids)
  pub tells : (id : String) → Tells (get by_id id) (replay (token_transactions ledger id))

abbrev pub IsChained : Env → World → Type 0
IsChained e w = IsChainedBy e w.uuids w.tokens.by_id w.ledger

pub chained_later :
    (e : Env) (n m : ℕ) (by_id : Dict TokenInstance) (ledger : Ledger)
    → n ≤ m
    → IsChainedBy e n by_id ledger
    → IsChainedBy e m by_id ledger
chained_later e n m by_id ledger le h = record {
  drawn = λ id x at. let (k, same, below) = h.drawn id x at in (k, same, omega arith);
  tells = h.tells;
}

chained_leaves :
    (e : Env) (n : ℕ) (by_id : Dict TokenInstance) (ledger : Ledger) (leaves : List Leaf)
    → IsChainedBy e n by_id ledger
    → IsChainedBy e n by_id (record ledger { leaves = leaves })
unfolding token_transactions
chained_leaves e n by_id ledger leaves h = record { drawn = h.drawn; tells = h.tells }

rewritten-Tells :
    {o o' : Option TokenInstance} {s s' : Standing} → o ≡ o' → s ≡ s' → Tells o' s' → Tells o s
rewritten-Tells {o} {o'} {s} {s'} p q h =
    subst (λ x. Tells x s) (sym p) (subst (λ y. Tells o' y) (sym q) h)

-- A transaction with a new id is filed for a token, and the token is stored as it tells.
after_filing :
    (e : Env) (f : IsFaithful e) (n k m : ℕ) (before after : Dict TokenInstance) (ledger : Ledger)
    (log : TransactionLog) (tx : TokenTransaction) (t : TokenInstance)
    → n ≤ k
    → k < m
    → tx.token_tx_id ≡ tx_name e k
    → ((j : String) → get after j ≡ (if tx.token_id == j then some t else get before j))
    → Tells (some t) (advance (replay (token_transactions ledger tx.token_id)) tx)
    → IsChainedBy e n before ledger
    → IsChainedBy e m after (file_transaction e log tx ledger)
after_filing e f n k m before after ledger log tx t le lt name write told h =
    let fresh : (id x : String) → Memᴰ x (history ledger id) → (tx.token_tx_id == x) ≡ false =
      λ id x at. elim (Bool-cases (tx.token_tx_id == x)) [
        | inl same ↦
            let (j, is, below) = h.drawn id x at in
            let number : k ≡ j = f.uuid_injective _ _ (
              append_cancel_left "urn:uuid:tokentx-" (e.uuid k) (e.uuid j)
                (sym name ∙ (eq_iff _ _).0 same ∙ is)) in
            absurd (omega arith)
        | inr other ↦ other
      ] in
    record {
      drawn = λ id x at. elim (history-file_transaction e log tx ledger id x at) [
        | inl new ↦ (k, new ∙ name, lt)
        | inr old ↦ let (j, is, below) = h.drawn id x old in (j, is, omega arith)
      ];
      tells = λ id.
          let filed = token_transactions-file_transaction e log tx ledger id (fresh id) in
          elim (Bool-cases (tx.token_id == id)) [
            | inl same ↦
                let at : tx.token_id ≡ id = (eq_iff _ _).0 same in
                rewritten-Tells {o' = some t} (write id ∙ rw same refl)
                  (ap replay (filed ∙ rw same refl)
                    ∙ replay-append (token_transactions ledger id) tx)
                  (subst (λ i. Tells (some t) (advance (replay (token_transactions ledger i)) tx))
                    at told)
            | inr other ↦
                rewritten-Tells {o' = get before id} (write id ∙ rw other refl)
                  (ap replay (filed ∙ rw other refl)) (h.tells id)
          ];
    }

-- A first transaction tells the token, if it does so where there is none before it.
opening-Tells :
    (t : TokenInstance) (standing : Standing) (tx : TokenTransaction)
    → standing ≡ absent
    → Tells (some t) (advance absent tx)
    → Tells (some t) (advance standing tx)
opening-Tells t standing tx none_told h =
    subst (λ s. Tells (some t) (advance s tx)) (sym none_told) h

advance-transfer_transaction :
    (e : Env) (input : TransferRecord) (tx_id uuid commitment now : String)
    → advance
        (owned input.from_did input.previous_commitment)
        (transfer_transaction e input tx_id uuid commitment now)
      ≡ owned input.to_did commitment
unfolding advance transfer_transaction
advance-transfer_transaction e input tx_id uuid commitment now = rw (eq_refl, eq_refl) refl

-- A transfer from the one who owns the token tells where it goes.
moving-Tells :
    (e : Env) (input : TransferRecord) (tx_id uuid commitment now : String) (t t' : TokenInstance)
    (standing : Standing)
    → Tells (some t) standing
    → owner_of t ≡ some input.from_did
    → or_default t.state.state_commitment "" ≡ input.previous_commitment
    → owner_of t' ≡ some input.to_did
    → t'.state.state_commitment ≡ some commitment
    → Tells (some t') (advance standing (transfer_transaction e input tx_id uuid commitment now))
moving-Tells e input tx_id uuid commitment now t t' standing (owner, last, owns, at, told) mine
      previous owner' at' =
    let from : owner ≡ input.from_did = Option.some-injective _ _ (sym owns ∙ mine) in
    let chained : last ≡ input.previous_commitment =
      sym (ap (λ o. or_default o "") at) ∙ previous in
    let known : standing ≡ owned input.from_did input.previous_commitment =
      told ∙ ap (λ o. owned o last) from ∙ ap (owned input.from_did) chained in
    (
      input.to_did,
      commitment,
      owner',
      at',
      ap (λ s. advance s (transfer_transaction e input tx_id uuid commitment now)) known
          ∙ advance-transfer_transaction e input tx_id uuid commitment now,
    )

module _ (e : Env) (f : IsFaithful e) where
  pub mint_compliant-IsChained :
      (input : MintInput) (tc : TokenClass) (claim : Option Vc) (w : World)
      → IsIndexed e w
      → IsChained e w
      → IsChained e (mint_compliant e input tc claim w).1
  unfolding mint_compliant record_mint with_commitment owner_of advance
  mint_compliant-IsChained input tc claim w indexed h =
      let token = new_token e input tc claim (e.iso (e.clock w.readings)) (e.uuid w.uuids) in
      let commitment =
        next_commitment e "" (e.uuid (suc w.uuids)) token.id input.owner_did
          (claims_digest e token.claims) (e.iso (e.clock (suc w.readings))) in
      let token' = with_commitment commitment token in
      let fresh : get w.tokens.by_id (token_name e w.uuids) ≡ none =
        elim (Option-cases (get w.tokens.by_id (token_name e w.uuids))) [
          | inl none_there ↦ none_there
          | inr (u, there) ↦
              let (k, same, below) = indexed.drawn _ u there in
              let number : w.uuids ≡ k =
                f.uuid_injective _ _
                  (append_cancel_left "urn:uuid:token-" (e.uuid w.uuids) (e.uuid k) same) in
              absurd (omega arith)
        ] in
      elim (Bool-cases (e.validate_token token)) [
        | inl valid ↦ rw valid (
            chained_leaves e _ _ _ _ (
              after_filing e f w.uuids _ _ w.tokens.by_id _ w.ledger _ _ token' (omega arith)
                (omega arith) refl
                (get-put_twice w.tokens.by_id (token_name e w.uuids) token token')
                (opening-Tells token' _ _
                  (subst
                    (λ o. Tells o (replay (token_transactions w.ledger (token_name e w.uuids))))
                    fresh (h.tells _))
                  (input.owner_did, commitment, refl, refl, refl))
                h))
        | inr bad ↦ rw bad (chained_later e w.uuids _ w.tokens.by_id w.ledger (omega arith) h)
      ]

  pub transfer_token-IsChained :
      (input : TransferInput) (w : World)
      → IsIndexed e w
      → IsChained e w
      → IsChained e (transfer_token e input w).1
  unfolding transfer_token record_transfer moved_token
  transfer_token-IsChained input w indexed h =
      elim (Option-cases (get w.tokens.by_id input.token_id)) [
        | inl missing ↦ rw missing h
        | inr (t, there) ↦ elim (Bool-cases (is_owned_by t input.from_did)) [
          | inl mine ↦
              let own : t.id ≡ input.token_id = indexed.keyed input.token_id t there in
              let owner = is_owned_by→owner_of t input.from_did mine in
              let before : Tells (some t) (replay (token_transactions w.ledger t.id)) =
                subst (λ o. Tells o (replay (token_transactions w.ledger t.id)))
                  (ap (get w.tokens.by_id) own ∙ there) (h.tells t.id) in
              let commitment =
                next_commitment e (or_default t.state.state_commitment "") (e.uuid w.uuids) t.id
                  input.to_did (claims_digest e t.claims) (e.iso (e.clock w.readings)) in
              let now = e.iso (e.clock (suc (suc (suc w.readings)))) in
              let moving : TransferRecord = record {
                token_id = t.id;
                from_did = input.from_did;
                to_did = input.to_did;
                previous_commitment = or_default t.state.state_commitment "";
                claims_digest = claims_digest e t.claims;
              } in
              let moved = moved_token t input.to_did commitment now in
              rw (there, mine)
                (chained_leaves e _ _ _ _ (
                  after_filing e f w.uuids _ _ w.tokens.by_id _ w.ledger _ _ moved (omega arith)
                    (omega arith) refl
                    (λ j.
                      get-put w.tokens.by_id input.token_id j moved
                      ∙ ap (λ i. if i == j then some moved else get w.tokens.by_id j) (sym own))
                    (moving-Tells e moving _ _ _ _ t moved _ before owner refl
                      (owner_of-moved_token t input.to_did commitment now input.from_did owner)
                      refl)
                    h))
          | inr other ↦ rw (there, other) h
        ]
      ]
