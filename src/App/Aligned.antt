-- ===== src/App/Aligned.antt =====
-- In every state that the service can reach, the logs and the leaves of standin-service/src/ledger.ts are of the
-- same transactions.
use finlabs_explore.Prelude.{suc, refl, ◌≤◌, String, ◌≡◌, Bool-cases, inl, inr, arith, Option}
use finlabs_explore.Js.Dict.{get, empty}
use finlabs_explore.Types.Credential.{Vc}
use finlabs_explore.Types.Token.{MintInput, TransferInput}
use finlabs_explore.Types.TokenClass.{TokenClass}
use finlabs_explore.Accounts.{create_account}
use finlabs_explore.Credentials.Keeping.{issue_credential-Keeps, revoke_credential-Keeps}
use finlabs_explore.TokenClasses.{register_token_class}
use finlabs_explore.Tokens.{new_token, mint_compliant, move_token, transfer_token}
use finlabs_explore.Tokens.Moving.{transfer_token-Keeps}
use finlabs_explore.Tokens.Minting.{mint_token-Keeps}
use finlabs_explore.Ledger.{record_mint, record_transfer}
use finlabs_explore.Ledger.Aligned.{
  IsAlignedBy, aligned_later, after_recording, proved_ids, logged_ids, count,
}
use finlabs_explore.App.{Validator, boot}
use finlabs_explore.App.Invariants.{IsInvariant}
use finlabs_explore.App.Induction.{Reachable, Reachable-induction}
use finlabs_explore.World.{World}
use finlabs_explore.World.Env.{Env, IsFaithful}
use finlabs_explore.World.Keeps.{Keeps, IsSupplied}

abbrev IsAligned : Env → World → Type 0
IsAligned e w = IsAlignedBy e w.uuids w.ledger

module _ (e : Env) where
  IsAligned-IsSupplied : IsSupplied (IsAligned e)
  IsAligned-IsSupplied = record {
    uuid = λ w h. aligned_later e w.uuids _ w.ledger (omega arith) h;
    reading = λ w h. h;
    key = λ w h. h;
  }

  mint_compliant-IsAligned :
      IsFaithful e
      → (input : MintInput) (tc : TokenClass) (claim : Option Vc)
      → Keeps (IsAligned e) (mint_compliant e input tc claim)
  unfolding mint_compliant record_mint
  mint_compliant-IsAligned f input tc claim = record {
    at = λ w h.
        let token = new_token e input tc claim (e.iso (e.clock w.readings)) (e.uuid w.uuids) in
        elim (Bool-cases (e.validate_token token)) [
          | inl valid ↦ rw valid (
              after_recording e f w.uuids (suc w.uuids) _ w.ledger _ _ _ (omega arith) (omega arith)
                refl h)
          | inr bad ↦ rw bad (aligned_later e w.uuids _ w.ledger (omega arith) h)
        ];
  }

  transfer_token-IsAligned :
      IsFaithful e → (input : TransferInput) → Keeps (IsAligned e) (transfer_token e input)
  unfolding move_token record_transfer
  transfer_token-IsAligned f input = transfer_token-Keeps e input λ t. record {
    at = λ w h.
        after_recording e f w.uuids w.uuids _ w.ledger _ _ _ (omega arith) (omega arith) refl h;
  }

  IsAligned-IsInvariant : IsFaithful e → IsInvariant e (IsAligned e)
  unfolding create_account register_token_class
  IsAligned-IsInvariant f = record {
    supplied = IsAligned-IsSupplied;
    creates = λ input. record { at = λ w h. aligned_later e w.uuids _ w.ledger (omega arith) h };
    issues = issue_credential-Keeps e IsAligned-IsSupplied (λ w cs h. h);
    revokes = revoke_credential-Keeps e IsAligned-IsSupplied (λ w cs h. h);
    registers = λ input. record { at = λ w h. h };
    mints =
        λ input. mint_token-Keeps e IsAligned-IsSupplied input (mint_compliant-IsAligned f input);
    transfers = transfer_token-IsAligned f;
  }

  boot-IsAligned : IsAligned e (boot e)
  unfolding boot get empty
  boot-IsAligned = record {
    aligned = refl;
    once = λ id. omega arith;
    drawn = λ id log at. absurd (cc at);
  }

  -- Given an outside that is faithful (IsFaithful), in every state that the service can reach: the
  -- transactions that have a leaf in the ledger are those that have a log, in the same order, and none has
  -- two leaves.
  pub Reachable-IsAligned :
      IsFaithful e
      → (v : Validator) (w : World) → Reachable e v w
      → (proved_ids w.ledger ≡ logged_ids w.ledger)
        × ((id : String) → count id (proved_ids w.ledger) ≤ 1)
  Reachable-IsAligned f v w r =
      let h = Reachable-induction e v (IsAligned-IsInvariant f) boot-IsAligned r in
      (h.aligned, h.once)
