-- ===== src/Ledger/Merkle/Binding.antt =====
-- What a Merkle root commits to: another leaf under the same path needs a collision of the hash.
use text.Mathlib.TextLemmas.{append_cancel_left, append_cancel_right}
use finlabs_explore.Prelude.{
  String, refl, sym, ◌∙◌, ◌≡◌, ◌≢◌, ◌⊎◌, inl, inr, Bool-cases, List, [], ◌∷◌, ◌==◌, eq_iff,
}
use finlabs_explore.Js.Text.{◌+ₛ◌}
use finlabs_explore.Crypto.Packages.{Primitives}
use finlabs_explore.Crypto.{sha256_hex}
use finlabs_explore.Ledger.Merkle.{ProofPathNode, left, right, Direction}
use finlabs_explore.Wallet.Crypto.{fold_step, fold_merkle_proof}

-- The text that a turn of the fold hashes.
abbrev pub step_text : String → ProofPathNode → String
step_text h node = elim node.direction [ left ↦ node.hash +ₛ h | right ↦ h +ₛ node.hash ]

module _ (p : Primitives) where
  -- At a node of the path, the folds from two hashes meet two texts with one SHA-256.
  abbrev pub CollisionOn : List ProofPathNode → String → String → Type 0
  CollisionOn [] h h' = ⊥
  CollisionOn (node ∷ path) h h' =
      ((step_text h node ≢ step_text h' node)
        × (sha256_hex p (step_text h node) ≡ sha256_hex p (step_text h' node)))
      ⊎ CollisionOn path (fold_step p h node) (fold_step p h' node)

  step_text-injective :
      (d : Direction) (n h h' : String)
      → step_text h (record { hash = n; direction = d })
        ≡ step_text h' (record { hash = n; direction = d })
      → h ≡ h'
  step_text-injective left n h h' e = append_cancel_left n h h' e
  step_text-injective right n h h' e = append_cancel_right h h' n e

  fold_step-step_text :
      (d : Direction) (n h : String)
      → fold_step p h (record { hash = n; direction = d })
        ≡ sha256_hex p (step_text h (record { hash = n; direction = d }))
  unfolding fold_step
  fold_step-step_text left n h = refl
  fold_step-step_text right n h = refl

  -- Of two hashes that one path folds to one root, either both are the same, or the two folds meet, at a
  -- node of the path, two different texts with one SHA-256.
  pub fold_merkle_proof_binding :
      (path : List ProofPathNode) (h h' : String)
      → fold_merkle_proof p h path ≡ fold_merkle_proof p h' path
      → (h ≡ h') ⊎ CollisionOn path h h'
  unfolding fold_merkle_proof
  fold_merkle_proof_binding [] h h' e = inl e
  fold_merkle_proof_binding (node ∷ path) h h' e =
      elim (fold_merkle_proof_binding path (fold_step p h node) (fold_step p h' node) e) [
        | inl same ↦
            let hashed =
              sym (fold_step-step_text node.direction node.hash h)
              ∙ same
              ∙ fold_step-step_text node.direction node.hash h' in
            elim (Bool-cases (step_text h node == step_text h' node)) [
              | inl agree ↦
                  inl (step_text-injective node.direction node.hash h h' ((eq_iff _ _).0 agree))
              | inr differ ↦ inr (inl ((λ eq. cc (differ, (eq_iff _ _).1 eq)), hashed))
            ]
        | inr found ↦ inr (inr found)
      ]
