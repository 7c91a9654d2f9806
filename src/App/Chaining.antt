-- ===== src/App/Chaining.antt =====
-- In every state that the service can reach, the ledger's list of a token's transactions tells what
-- standin-service/src/tokens.ts stores of the token.
use finlabs_explore.Prelude.{String, refl, arith}
use finlabs_explore.Js.Dict.{get, empty}
use finlabs_explore.Accounts.{create_account}
use finlabs_explore.Credentials.Keeping.{issue_credential-Keeps, revoke_credential-Keeps}
use finlabs_explore.TokenClasses.{register_token_class}
use finlabs_explore.Tokens.Minting.{mint_token-Keeps}
use finlabs_explore.Tokens.Ownership.{
  IsIndexed, IsIndexed-IsSupplied, mint_compliant-IsIndexed, transfer_token-IsIndexed,
}
use finlabs_explore.Tokens.Chaining.{
  IsChained, Tells, chained_later, mint_compliant-IsChained, transfer_token-IsChained,
}
use finlabs_explore.Ledger.{token_transactions}
use finlabs_explore.Ledger.History.{replay}
use finlabs_explore.App.{Validator, boot}
use finlabs_explore.App.Invariants.{IsInvariant}
use finlabs_explore.App.Induction.{Reachable, Reachable-induction}
use finlabs_explore.App.Ownership.{IsIndexed-IsInvariant, boot-IsIndexed}
use finlabs_explore.World.{World, Exec}
use finlabs_explore.World.Keeps.{Keeps, IsSupplied}
use finlabs_explore.World.Env.{Env, IsFaithful}

module _ (e : Env) where
  abbrev IsKept : World → Type 0
  IsKept w = IsIndexed e w × IsChained e w

  IsKept-IsSupplied : IsSupplied IsKept
  IsKept-IsSupplied = record {
    uuid = λ w h. (
      (IsIndexed-IsSupplied e).uuid w h.0,
      chained_later e w.uuids _ w.tokens.by_id w.ledger (omega arith) h.1,
    );
    reading = λ w h. h;
    key = λ w h. h;
  }

  -- An action that keeps the index and writes neither a token nor the ledger.
  beside :
      {A : Type 0} (m : Exec A)
      → Keeps (IsIndexed e) m
      → ((w : World) → IsChained e w → IsChained e (m w).1)
      → Keeps IsKept m
  beside m index chain = record { at = λ w h. (index.at w h.0, chain w h.1) }

  IsKept-IsInvariant : IsFaithful e → IsInvariant e IsKept
  unfolding create_account register_token_class
  IsKept-IsInvariant f =
      let inv = IsIndexed-IsInvariant e f in
      record {
        supplied = IsKept-IsSupplied;
        creates = λ input.
            beside _ (inv.creates input)
              (λ w h. chained_later e w.uuids _ w.tokens.by_id w.ledger (omega arith) h);
        issues = issue_credential-Keeps e IsKept-IsSupplied (λ w cs h. h);
        revokes = revoke_credential-Keeps e IsKept-IsSupplied (λ w cs h. h);
        registers = λ input. beside _ (inv.registers input) (λ w h. h);
        mints = λ input. mint_token-Keeps e IsKept-IsSupplied input λ tc claim. record {
          at = λ w h. (
            (mint_compliant-IsIndexed e f input tc claim).at w h.0,
            mint_compliant-IsChained e f input tc claim w h.0 h.1,
          );
        };
        transfers = λ input. record {
          at = λ w h. (
            (transfer_token-IsIndexed e input).at w h.0,
            transfer_token-IsChained e f input w h.0 h.1,
          );
        };
      }

  boot-IsChained : IsChained e (boot e)
  unfolding boot get empty token_transactions replay
  boot-IsChained = record { drawn = λ id x at. elim at [ ]; tells = λ id. refl }

  -- Given an outside that is faithful (IsFaithful), in every state that the service can reach, the
  -- transactions that the ledger lists for a token's id, read from the oldest on, tell what is stored under
  -- it: none if there is no token; otherwise a mint first, each transfer from the owner at that point and
  -- continuing from the commitment at that point, and in the end the token's owner and its state commitment.
  pub Reachable-Tells :
      IsFaithful e
      → (v : Validator) (w : World) (id : String) → Reachable e v w
      → Tells (get w.tokens.by_id id) (replay (token_transactions w.ledger id))
  Reachable-Tells f v w id r =
      (Reachable-induction e v (IsKept-IsInvariant f) (boot-IsIndexed e, boot-IsChained) r).1.tells
        id
