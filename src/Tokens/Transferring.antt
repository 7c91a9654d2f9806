-- ===== src/Tokens/Transferring.antt =====
-- `transferToken` of standin-service/src/tokens.ts on every branch.
use mathlib.Core.Option
use finlabs_explore.Prelude.{
  String, ◌≡◌, ◌⊎◌, ◌↔◌, refl, ap, sym, ◌∙◌, true, false, Bool-cases, Option-cases, inl, inr, some,
  none, List, [], ◌∷◌, ◌++◌, any, arith, ◌==◌, eq_iff, if◌then◌else◌,
}
use finlabs_explore.Js.Dict.{get, get-put, get-put_same}
use finlabs_explore.Js.Text.{◌+ₛ◌}
use finlabs_explore.Types.Token.{
  TokenInstance, TransferInput, TransferCode, rejected, transferred, token_not_found, not_owner,
}
use finlabs_explore.Types.Transaction.{Leaf, TransactionLog}
use finlabs_explore.Ledger.{record_transfer, get_transaction}
use finlabs_explore.Ledger.Proofs.{is_recorded}
use finlabs_explore.Tokens.{owner_of, is_owned_by, move_token, transfer_token}
use finlabs_explore.Tokens.Index.{owned, owned_in, is_owned_by→owner_of, owner_of-moved_token}
use finlabs_explore.World.{World, returned}
use finlabs_explore.World.Env.{Env}

any-append_last :
    (tx_id : String) (ls : List Leaf) (l : Leaf)
    → (l.tx_id == tx_id) ≡ true
    → any (λ x. x.tx_id == tx_id) (ls ++ l ∷ []) ≡ true
any-append_last tx_id [] l h = rw h refl
any-append_last tx_id (x ∷ ls) l h = rw (any-append_last tx_id ls l h) (ground arith)

-- What a transfer that succeeds has done: the caller owned the token; it is now the recipient's, with the
-- same class and claims; no other token, account, credential or class has changed; the transaction is
-- logged under the caller and has a leaf in the ledger.
pub record IsTransferred (input : TransferInput) (w w' : World) (tx_id : String) (t : TokenInstance)
    : Type 0 where
  pub was_owner : owned w.tokens.by_id input.from_did input.token_id ≡ true
  pub stored :
      (id : String)
      → get w'.tokens.by_id id ≡ (if input.token_id == id then some t else get w.tokens.by_id id)
  pub owner : owner_of t ≡ some input.to_did
  pub same_claims : Option.map (λ u. u.claims) (get w.tokens.by_id input.token_id) ≡ some t.claims
  pub same_class :
      Option.map (λ u. u.metadata.token_class) (get w.tokens.by_id input.token_id)
      ≡ some t.metadata.token_class
  pub same_accounts : w'.accounts ≡ w.accounts
  pub same_credentials : w'.credentials ≡ w.credentials
  pub same_classes : w'.classes ≡ w.classes
  pub logged :
      (log : TransactionLog) × (get_transaction w'.ledger tx_id ≡ some log)
      × (log.initiator ≡ input.from_did)
  pub recorded : is_recorded w'.ledger tx_id ≡ true

move_token-IsTransferred :
    (e : Env) (input : TransferInput) (w : World) (t : TokenInstance)
    → get w.tokens.by_id input.token_id ≡ some t
    → is_owned_by t input.from_did ≡ true
    → (tx_id : String) × (t' : TokenInstance) × (w' : World) × (move_token e input t w
        ≡ (returned (transferred tx_id t'), w'))
      × IsTransferred input w w' tx_id t'
unfolding move_token record_transfer get_transaction
move_token-IsTransferred e input w t there mine =
    let tx_id = "urn:uuid:tx-" +ₛ e.uuid w.uuids in
    let itself : (tx_id == tx_id) ≡ true = (eq_iff tx_id tx_id).1 refl in
    (
      _,
      _,
      _,
      refl,
      record {
        was_owner = ap (λ r. owned_in r input.from_did) there ∙ mine;
        stored = λ id. get-put w.tokens.by_id input.token_id id _;
        owner =
            owner_of-moved_token t input.to_did _ _ input.from_did
              (is_owned_by→owner_of t input.from_did mine);
        same_claims = rw there refl;
        same_class = rw there refl;
        same_accounts = refl;
        same_credentials = refl;
        same_classes = refl;
        logged = (_, get-put_same w.ledger.tx_logs tx_id _, refl);
        recorded = any-append_last tx_id w.ledger.leaves _ itself;
      },
    )

-- `transferToken` never throws. If the caller is not the owner of a stored token, it changes nothing and
-- says whether the token is missing or another's; otherwise the token moves, and nothing else does.
pub transfer_token-IsTransferred :
    (e : Env) (input : TransferInput) (w : World)
    → ((owned w.tokens.by_id input.from_did input.token_id ≡ false)
        × (code : TransferCode) × (message : String) × (transfer_token e input w
            ≡ (returned (rejected code message), w))
        × ((code ≡ token_not_found) ↔ (get w.tokens.by_id input.token_id ≡ none)))
      ⊎ ((tx_id : String) × (t : TokenInstance) × (w' : World) × (transfer_token e input w
            ≡ (returned (transferred tx_id t), w'))
          × IsTransferred input w w' tx_id t)
transfer_token-IsTransferred e input w = elim (Option-cases (get w.tokens.by_id input.token_id)) [
  | inl absent ↦ inl (
    ap (λ r. owned_in r input.from_did) absent,
    token_not_found,
    "No token '" +ₛ (input.token_id +ₛ "'"),
    unfold transfer_token in rw absent refl,
    ((λ h. absent), (λ h. refl)),
  )
  | inr (t, there) ↦ elim (Bool-cases (is_owned_by t input.from_did)) [
    | inl mine ↦
        let (tx_id, t', w', moves, done) = move_token-IsTransferred e input w t there mine in
        let runs : transfer_token e input w ≡ move_token e input t w =
          unfold transfer_token in rw (there, mine) refl in
        inr (tx_id, t', w', runs ∙ moves, done)
    | inr other ↦ inl (
      ap (λ r. owned_in r input.from_did) there ∙ other,
      not_owner,
      "Caller does not own token '" +ₛ (input.token_id +ₛ "'"),
      unfold transfer_token in rw (there, other) refl,
      ((λ h. absurd (cc h)), (λ h. absurd (cc (sym h ∙ there)))),
    )
  ]
]
