-- ===== src/App/Recording.antt =====
-- The ledger of standin-service/src/ledger.ts is append-only: a recorded transaction can be proved after
-- every later request.
use finlabs_explore.Prelude.{
  String, ◌≡◌, refl, sym, ◌∙◌, true, false, Bool-cases, inl, inr, some, List, [], ◌∷◌, ◌++◌, any,
  arith, ◌==◌, Option,
}
use finlabs_explore.Types.Credential.{Vc}
use finlabs_explore.Types.Token.{MintInput, TransferInput}
use finlabs_explore.Types.TokenClass.{TokenClass}
use finlabs_explore.Types.Transaction.{Leaf, ProofDetails}
use finlabs_explore.Accounts.{create_account}
use finlabs_explore.Credentials.Keeping.{issue_credential-Keeps, revoke_credential-Keeps}
use finlabs_explore.TokenClasses.{register_token_class}
use finlabs_explore.Tokens.{new_token, mint_compliant, move_token, transfer_token}
use finlabs_explore.Tokens.Moving.{transfer_token-Keeps}
use finlabs_explore.Tokens.Minting.{mint_token-Keeps}
use finlabs_explore.Ledger.{record_mint, record_transfer, get_proof}
use finlabs_explore.Ledger.Proofs.{is_recorded, IsInclusionProof, get_proof_total}
use finlabs_explore.App.{Validator, Request, serve}
use finlabs_explore.App.Invariants.{IsInvariant}
use finlabs_explore.App.Induction.{serve-Keeps}
use finlabs_explore.App.Revocation.{serve_all}
use finlabs_explore.World.{World}
use finlabs_explore.World.Env.{Env}
use finlabs_explore.World.Keeps.{Keeps, IsSupplied}

any-append :
    (tx_id : String) (ls ms : List Leaf)
    → any (λ l. l.tx_id == tx_id) ls ≡ true
    → any (λ l. l.tx_id == tx_id) (ls ++ ms) ≡ true
any-append tx_id [] ms h = absurd (ground arith)
any-append tx_id (l ∷ ls) ms h = elim (Bool-cases (l.tx_id == tx_id)) [
  | inl here ↦ rw here refl
  | inr other ↦ rw other (any-append tx_id ls ms (rw other at h))
]

abbrev HasLeaf : String → World → Type 0
HasLeaf tx_id w = is_recorded w.ledger tx_id ≡ true

module _ (e : Env) (tx_id : String) where
  recorded-IsSupplied : IsSupplied (HasLeaf tx_id)
  recorded-IsSupplied = record { uuid = λ w h. h; reading = λ w h. h; key = λ w h. h }

  recorded-mint :
      (input : MintInput) (tc : TokenClass) (claim : Option Vc)
      → Keeps (HasLeaf tx_id) (mint_compliant e input tc claim)
  unfolding mint_compliant record_mint
  recorded-mint input tc claim = record {
    at = λ w h.
        let token = new_token e input tc claim (e.iso (e.clock w.readings)) (e.uuid w.uuids) in
        elim (Bool-cases (e.validate_token token)) [
          | inl valid ↦ rw valid (any-append tx_id w.ledger.leaves _ h)
          | inr bad ↦ rw bad h
        ];
  }

  recorded-transfer : (input : TransferInput) → Keeps (HasLeaf tx_id) (transfer_token e input)
  unfolding move_token record_transfer
  recorded-transfer input =
      transfer_token-Keeps e input λ t. record { at = λ w h. any-append tx_id w.ledger.leaves _ h }

  recorded-IsInvariant : IsInvariant e (HasLeaf tx_id)
  unfolding create_account register_token_class
  recorded-IsInvariant = record {
    supplied = recorded-IsSupplied;
    creates = λ input. record { at = λ w h. h };
    issues = issue_credential-Keeps e recorded-IsSupplied (λ w cs h. h);
    revokes = revoke_credential-Keeps e recorded-IsSupplied (λ w cs h. h);
    registers = λ input. record { at = λ w h. h };
    mints = λ input. mint_token-Keeps e recorded-IsSupplied input (recorded-mint input);
    transfers = recorded-transfer;
  }

  serve_all-recorded :
      (v : Validator) (rs : List Request) (w : World)
      → HasLeaf tx_id w
      → HasLeaf tx_id (serve_all e v rs w)
  serve_all-recorded v [] w h = h
  serve_all-recorded v (r ∷ rs) w h =
      serve_all-recorded v rs (serve e v r w).1 ((serve-Keeps e recorded-IsInvariant v r).at w h)

-- A transaction that has a leaf in the ledger has an inclusion proof after any requests whatever:
-- `getProof` answers, and its answer folds to the root of the ledger as it then is.
pub serve_all-IsInclusionProof :
    (e : Env) (v : Validator) (rs : List Request) (w : World) (tx_id : String)
    → is_recorded w.ledger tx_id ≡ true
    → (d : ProofDetails) × (get_proof e (serve_all e v rs w).ledger tx_id ≡ some d)
      × IsInclusionProof e (serve_all e v rs w).ledger tx_id d
serve_all-IsInclusionProof e v rs w tx_id h =
    elim (get_proof_total e (serve_all e v rs w).ledger tx_id) [
      | inl (recorded, d, answer, proof) ↦ (d, answer, proof)
      | inr (absent, none_given) ↦
          let contradiction : true ≡ false = sym (serve_all-recorded e tx_id v rs w h) ∙ absent in
          absurd (cc contradiction)
    ]
