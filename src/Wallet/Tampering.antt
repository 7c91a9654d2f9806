-- ===== src/Wallet/Tampering.antt =====
-- The check of a proof that `Transfer` of app/src/App.tsx shows.
use Prim.Native.String.{◌∷◌}
use finlabs_explore.Prelude.{
  ℕ, String, ◌≡◌, ◌≢◌, refl, ap, sym, ◌∙◌, Bool, true, false, ◌⊎◌, inl, inr, Bool-cases, Option,
  none, some, List, ◌==◌, eq_iff, code, ◌=ℕ=◌, arith,
}
use finlabs_explore.Crypto.Packages.{Primitives}
use finlabs_explore.Types.Transaction.{ProofDetails}
use finlabs_explore.Ledger.Merkle.Binding.{CollisionOn, fold_merkle_proof_binding}
use finlabs_explore.Wallet.Crypto.{fold_merkle_proof}
use finlabs_explore.Wallet.Backend.{Backend}
use finlabs_explore.Wallet.Screens.Transfer.{
  TransferScreen, tamper, checked_leaf, proof_verdict, is_proved,
}
use finlabs_explore.Wallet.Shell.{
  Event, Wallet, Screens, Page, landing, signed_in, new_wallet, play,
}
use finlabs_explore.Wallet.Journey.{IsConsistent, IsConsistentAt}
use finlabs_explore.Wallet.Journey.Steps.{play-IsConsistent}

abbrev code_at : String → ℕ
code_at String.[] = 0
code_at (c ∷ h) = code c

tamper-changes : (h : String) → tamper h ≢ h
unfolding tamper
tamper-changes String.[] e = absurd (cc e)
tamper-changes (c ∷ h) e =
    let heads : code_at (tamper (c ∷ h)) ≡ code c = ap code_at e in
    elim (Bool-cases (code c =ℕ= b'0')) [
      | inl zero ↦ let first : b'f' ≡ code c = rw zero at heads in ground arith
      | inr other ↦ let first : b'0' ≡ code c = rw other at heads in ground arith
    ]

bool_of : (b : Bool) → some b ≡ some true → b ≡ true
bool_of true h = refl
bool_of false h = cc h

-- On a proof that Transfer shows as valid, tampering with the leaf makes the verdict invalid, or the
-- folds from the leaf and from the tampered leaf meet, at a node of the path, two different texts with
-- one SHA-256.
pub tampered_verdict :
    (p : Primitives) (screen : TransferScreen) (proof : ProofDetails)
    → screen.proof ≡ some proof
    → proof_verdict p (record screen { tampered = false }) ≡ some true
    → (proof_verdict p (record screen { tampered = true }) ≡ some false)
      ⊎ CollisionOn p proof.proof_path proof.leaf_hash (tamper proof.leaf_hash)
unfolding proof_verdict checked_leaf
tampered_verdict p screen proof shown proved =
    let path = proof.proof_path in
    let leaf = proof.leaf_hash in
    let folds : fold_merkle_proof p leaf path ≡ proof.merkle_root =
      (eq_iff _ _).0 (bool_of _ (rw shown at proved)) in
    elim (Bool-cases (fold_merkle_proof p (tamper leaf) path == proof.merkle_root)) [
      | inl also ↦
          elim (fold_merkle_proof_binding p path leaf (tamper leaf)
            (folds ∙ sym ((eq_iff _ _).0 also))) [
              | inl same ↦ absurd (tamper-changes leaf (sym same))
              | inr collision ↦ inr collision
            ]
      | inr differs ↦ inl (rw (shown, differs) refl)
    ]

is_proved_lem :
    (p : Primitives) (screen : TransferScreen) (shown : Option ProofDetails)
    → screen.proof ≡ shown
    → is_proved p screen ≡ true
    → (proof : ProofDetails) × (screen.proof ≡ some proof)
      × (fold_merkle_proof p (checked_leaf screen.tampered proof) proof.proof_path
          ≡ proof.merkle_root)
unfolding is_proved
is_proved_lem p screen none at h = let no : false ≡ true = rw at at h in absurd (cc no)
is_proved_lem p screen (some proof) at h = (proof, at, (eq_iff _ _).0 (rw at at h))

proved_at :
    (p : Primitives) (page : Page) (wallet : Wallet)
    → wallet.page ≡ page
    → IsConsistentAt p page wallet
    → wallet.journey.proof ≡ true
    → (screens : Screens) × (proof : ProofDetails) × (wallet.page ≡ signed_in screens)
      × (screens.transfer.proof ≡ some proof)
      × (fold_merkle_proof p (checked_leaf screens.transfer.tampered proof) proof.proof_path
          ≡ proof.merkle_root)
proved_at p (landing form) wallet at (h, hm, idle) lit =
    let no : false ≡ true = sym (ap (λ j. j.proof) h) ∙ lit in absurd (cc no)
proved_at p (signed_in screens) wallet at h lit =
    let (proof, shown, folds) =
      is_proved_lem p screens.transfer screens.transfer.proof refl
        (sym (ap (λ j. j.proof) h.0) ∙ lit) in
    (screens, proof, at, shown, folds)

-- After any events, from the wallet's start, that leave the milestone of the proof lit, there is a
-- session, and Transfer has a proof whose path folds to the proof's root from the leaf's hash, which is
-- tampered with if the box for that is ticked.
pub play-proved :
    {σ : Type 0} (p : Primitives) (lower : String → String) (b : Backend σ) (events : List Event)
    (s : σ)
    → (play p lower b events new_wallet s).0.journey.proof ≡ true
    → (screens : Screens) × (proof : ProofDetails) × ((play p lower b events new_wallet s).0.page
        ≡ signed_in screens)
      × (screens.transfer.proof ≡ some proof)
      × (fold_merkle_proof p (checked_leaf screens.transfer.tampered proof) proof.proof_path
          ≡ proof.merkle_root)
unfolding IsConsistent
play-proved p lower b events s lit =
    let wallet = (play p lower b events new_wallet s).0 in
    proved_at p wallet.page wallet refl (play-IsConsistent p lower b events s) lit
