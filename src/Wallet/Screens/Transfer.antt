-- ===== src/Wallet/Screens/Transfer.antt =====
-- app/src/App.tsx: `Transfer`.
use mathlib.Core.Option
use Prim.Native.String.{[], ◌∷◌}
use finlabs_explore.Prelude.{
  String, code, Bool, true, false, not, ◌&&◌, ◌||◌, Option, none, some, List, find, ◌==◌, ◌=ℕ=◌,
  if◌then◌else◌,
}
use finlabs_explore.Crypto.Packages.{Primitives}
use finlabs_explore.Types.Account.{personal}
use finlabs_explore.Types.Token.{TokenInstance}
use finlabs_explore.Types.Transaction.{TransactionLog, ProofDetails}
use finlabs_explore.Wallet.Crypto.{fold_merkle_proof}
use finlabs_explore.Wallet.Client.{Answer, answered, refused, error_text}
use finlabs_explore.Wallet.Backend.{Ask, done, ◌>>=◌, ◌>>◌, both, Backend}
use finlabs_explore.Wallet.Screens.Tokens.{owner_id, is_present}

pub record TransferScreen : Type 0 where
  pub held : Option TokenInstance
  pub recipient : String
  pub new_owner : Option String
  pub proof : Option ProofDetails
  pub log : Option TransactionLog
  pub tampered : Bool
  pub busy : Bool
  pub error : Option String

abbrev pub new_transfer : TransferScreen
new_transfer = record {
  held = none;
  recipient = "bob";
  new_owner = none;
  proof = none;
  log = none;
  tampered = false;
  busy = false;
  error = none;
}

-- The button is there and not disabled.
unfoldable pub can_transfer : TransferScreen → Bool
unfolding is_present
can_transfer screen =
    is_present screen.held
    && not (is_present screen.proof)
    && not (screen.busy || screen.recipient == "")

-- `(h.startsWith('0') ? 'f' : '0') + h.slice(1)`
unfoldable pub tamper : String → String
tamper [] = "0"
tamper (c ∷ h) = if code c =ℕ= b'0' then "f" ∷ h else "0" ∷ h

-- What the fold starts from.
unfoldable pub checked_leaf : Bool → ProofDetails → String
unfolding tamper
checked_leaf tampered proof = if tampered then tamper proof.leaf_hash else proof.leaf_hash

-- `verdict`
unfoldable pub proof_verdict : Primitives → TransferScreen → Option Bool
unfolding checked_leaf
proof_verdict p screen =
    Option.map
      (λ proof.
        fold_merkle_proof p (checked_leaf screen.tampered proof) proof.proof_path
        == proof.merkle_root)
      screen.proof

-- `verdict === true`
unfoldable pub is_proved : Primitives → TransferScreen → Bool
unfolding proof_verdict
is_proved p screen = elim (proof_verdict p screen) [ none ↦ false | some ok ↦ ok ]

abbrev pub first : {A : Type 0} → List A → Option A
first List.[] = none
first (List.◌∷◌ a rest) = some a

abbrev pub or_else : {A : Type 0} → Option A → Option A → Option A
or_else none o = o
or_else (some a) o = some a

-- `tokens.find((t) => t.id === mintedId) ?? tokens[0] ?? null`
unfoldable pub choose_held : Option String → List TokenInstance → Option TokenInstance
choose_held none tokens = first tokens
choose_held (some id) tokens = or_else (find (λ t. t.id == id) tokens) (first tokens)

abbrev held_from : Option String → Answer (List TokenInstance) → Option TokenInstance
held_from minted_id (answered tokens) = choose_held minted_id tokens
held_from minted_id (refused failure) = none

abbrev pub Moved : Type 0
Moved = ProofDetails × (TransactionLog × TokenInstance)

-- `setBusy(true)`, `setError(null)` and `setTampered(false)`, before the `try`.
unfoldable pub start_transfer : TransferScreen → TransferScreen
start_transfer screen = record screen { busy = true; error = none; tampered = false }

abbrev pub end_transfer : {σ : Type 0} → TransferScreen × σ → TransferScreen × σ
end_transfer (screen, s) = (record screen { busy = false }, s)

-- What the effect on `refreshHeld` clears.
abbrev pub cleared : TransferScreen → TransferScreen
cleared screen = record screen {
  proof = none;
  log = none;
  new_owner = none;
  tampered = false;
  error = none;
}

module _ {σ : Type 0} (b : Backend σ) (token : String) (minted_id : Option String) where
  unfoldable pub refresh_held : TransferScreen → σ → TransferScreen × σ
  unfolding choose_held
  refresh_held screen s =
      let (r, s') = b.search_tokens token s in (record screen { held = held_from minted_id r }, s')

  -- The effect on `refreshHeld`: when the screen appears, and on every new `mintedId`.
  unfoldable pub renew : TransferScreen → σ → TransferScreen × σ
  unfolding refresh_held
  renew screen s = refresh_held (cleared screen) s

  ensure_recipient : (recipient : String) → Bool → Ask σ Unit
  unfolding ◌>>=◌
  ensure_recipient recipient available =
      if available
      then b.create_account
          (record { address = recipient; name = recipient; entity_type = personal })
        >> done tt
      else done tt

  -- The body of `transfer`'s `try`, up to `Promise.all`.
  unfoldable pub move : TokenInstance → (recipient : String) → Ask σ Moved
  unfolding ◌>>=◌ both ensure_recipient
  move held recipient = do
    availability ← b.check_availability recipient
    ensure_recipient recipient availability.available
    accepted ← b.transfer token held.id recipient
    both (b.get_proof token accepted.tx_id)
        (both (b.get_transaction token accepted.tx_id) (b.get_token token held.id))

  -- What `transfer` makes of its answer, with the `finally`.
  unfoldable pub settle_move : TransferScreen → Answer Moved → σ → TransferScreen × σ
  unfolding refresh_held error_text owner_id
  settle_move screen (answered (proof, (log, moved))) s = end_transfer (
      refresh_held
        (record screen {
          proof = some proof;
          log = some log;
          new_owner = owner_id moved.identities;
        })
        s)
  settle_move screen (refused failure) s =
      end_transfer (record screen { error = some (error_text failure) }, s)

  unfoldable pub transfer_held : Option TokenInstance → TransferScreen → σ → TransferScreen × σ
  unfolding start_transfer move settle_move
  transfer_held none screen s = (
    record screen { error = some "Mint a token in step 6 first — there is nothing to transfer." },
    s,
  )
  transfer_held (some held) screen s =
      let started = start_transfer screen in
      let (r, s') = move held started.recipient s in settle_move started r s'

  unfoldable pub transfer : TransferScreen → σ → TransferScreen × σ
  unfolding transfer_held
  transfer screen s = transfer_held screen.held screen s
