-- ===== src/Ledger/Proofs.antt =====
-- `getProof` of standin-service/src/ledger.ts against the browser's check of its answer.
use mathlib.Core.Option
use native.Mathlib.Nat.{zero-add}
use finlabs_explore.Prelude.{
  ℕ, zero, suc, ◌+◌, ◌*◌, ◌^◌, ◌≤◌, ◌<◌, String, ◌≡◌, refl, ap, sym, ◌∙◌, ◌⊎◌, inl, inr, true,
  false, Bool, Bool-cases, Option, none, some, List, [], ◌∷◌, length, length-map, get_elem?, get_or,
  any, arith, ◌==◌, eq_iff, subst,
}
use finlabs_explore.World.Env.{Env}
use finlabs_explore.Types.Transaction.{Leaf, Ledger, ProofDetails}
use finlabs_explore.Ledger.{find_leaf, leaf_hashes, proof_details, get_proof}
use finlabs_explore.Ledger.Merkle.{merkle_levels, proof_path}
use finlabs_explore.Ledger.Merkle.Fold.{
  IsTower, levels_above-IsTower, levels_above_total, fold_merkle_proof-proof_path, IsTower-length,
  length-proof_path,
}
use finlabs_explore.Wallet.Crypto.{fold_merkle_proof}

-- What a verifier learns from an answer: the leaf stands in the ledger at the stated place, its path
-- folds to the root, and the path has as many nodes as the logarithm of the number of leaves.
pub record IsInclusionProof (e : Env) (ledger : Ledger) (tx_id : String) (d : ProofDetails)
    : Type 0 where
  pub named : d.tx_id ≡ tx_id
  pub listed :
      get_elem? ledger.leaves d.leaf_index
      ≡ some (record { tx_id = tx_id; leaf_hash = d.leaf_hash })
  pub folds : fold_merkle_proof e.packages d.leaf_hash d.proof_path ≡ d.merkle_root
  pub enough : length ledger.leaves ≤ 2 ^ length d.proof_path
  pub short : 2 ^ length d.proof_path < 2 * length ledger.leaves

find_leaf_sound :
    (k : ℕ) (tx_id : String) (ls : List Leaf) (i : ℕ) (l : Leaf)
    → find_leaf k tx_id ls ≡ some (i, l)
    → (j : ℕ) × (i ≡ k + j) × (j < length ls) × (get_elem? ls j ≡ some l) × (l.tx_id ≡ tx_id)
unfolding find_leaf
find_leaf_sound k tx_id [] i l h = cc
find_leaf_sound k tx_id (x ∷ ls) i l h = elim (Bool-cases (x.tx_id == tx_id)) [
  | inl here ↦
      let h' : ◌≡◌ {A = Option (ℕ × Leaf)} (some (k, x)) (some (i, l)) = rw here at h in
      let index : k ≡ i = ground (arith, h') in
      let leaf : x ≡ l = ground (arith, h') in
      (
        0,
        omega arith,
        omega arith,
        ap some leaf,
        ap (λ y. y.tx_id) (sym leaf) ∙ (eq_iff x.tx_id tx_id).0 here,
      )
  | inr there ↦
      let (j, index, below, at, named) = find_leaf_sound (suc k) tx_id ls i l (rw there at h) in
      (suc j, omega arith, omega arith, at, named)
]

find_leaf_complete :
    (k : ℕ) (tx_id : String) (ls : List Leaf)
    → any (λ l. l.tx_id == tx_id) ls ≡ true
    → (i : ℕ) × (l : Leaf) × (find_leaf k tx_id ls ≡ some (i, l))
unfolding find_leaf
find_leaf_complete k tx_id [] h = cc
find_leaf_complete k tx_id (x ∷ ls) h = elim (Bool-cases (x.tx_id == tx_id)) [
  | inl here ↦ (k, x, rw here)
  | inr there ↦
      let (i, l, found) = find_leaf_complete (suc k) tx_id ls (rw there at h) in
      (i, l, rw (there, found))
]

find_leaf_absent :
    (k : ℕ) (tx_id : String) (ls : List Leaf)
    → any (λ l. l.tx_id == tx_id) ls ≡ false
    → find_leaf k tx_id ls ≡ none
unfolding find_leaf
find_leaf_absent k tx_id [] h = refl
find_leaf_absent k tx_id (x ∷ ls) h = elim (Bool-cases (x.tx_id == tx_id)) [
  | inl here ↦ cc
  | inr there ↦ rw there (find_leaf_absent (suc k) tx_id ls (rw there at h))
]

get_or-leaf_hashes :
    (ls : List Leaf) (j : ℕ) (l : Leaf)
    → get_elem? ls j ≡ some l
    → get_or (leaf_hashes ls) j "" ≡ l.leaf_hash
get_or-leaf_hashes [] j l h = cc
get_or-leaf_hashes (x ∷ ls) zero l h = ground arith
get_or-leaf_hashes (x ∷ ls) (suc j) l h = get_or-leaf_hashes ls j l h

-- The levels of a tree with at least one leaf.
merkle_levels-IsTower :
    (e : Env) (hashes : List String) (levels : List (List String))
    → 0 < length hashes
    → merkle_levels e.packages hashes ≡ some levels
    → (rest : List (List String)) × (hashes ∷ rest ≡ levels) × IsTower e.packages hashes rest
unfolding merkle_levels
merkle_levels-IsTower e [] levels pos h = elim pos [ ]
merkle_levels-IsTower e (x ∷ hashes) levels pos h =
    let (rest, made, same) = (Option.map-eq-some_iff _ _).0 h in
    (rest, same, levels_above-IsTower e.packages (length (x ∷ hashes)) (x ∷ hashes) rest made)

pub merkle_levels_total :
    (e : Env) (hashes : List String)
    → (levels : List (List String)) × (merkle_levels e.packages hashes ≡ some levels)
unfolding merkle_levels
merkle_levels_total e [] = (_, refl)
merkle_levels_total e (x ∷ hashes) =
    let (rest, made) =
      levels_above_total e.packages (length (x ∷ hashes)) (x ∷ hashes) (omega arith)
        (omega arith) in
    ((x ∷ hashes) ∷ rest, rw made)

length-pos_of_get_elem? {ℓ} :
    {A : Type ℓ} (xs : List A) (i : ℕ) (a : A) → get_elem? xs i ≡ some a → i < length xs
length-pos_of_get_elem? [] i a h = cc
length-pos_of_get_elem? (x ∷ xs) zero a h = omega arith
length-pos_of_get_elem? (x ∷ xs) (suc i) a h = omega (arith, length-pos_of_get_elem? xs i a h)

proof_details-IsInclusionProof :
    (e : Env) (ledger : Ledger) (tx_id : String) (i : ℕ) (l : Leaf) (rest : List (List String))
    → get_elem? ledger.leaves i ≡ some l
    → l.tx_id ≡ tx_id
    → IsTower e.packages (leaf_hashes ledger.leaves) rest
    → IsInclusionProof e ledger tx_id
        (proof_details tx_id (i, l) (leaf_hashes ledger.leaves ∷ rest))
unfolding proof_details
proof_details-IsInclusionProof e ledger tx_id i l rest at named tower =
    let hashes = leaf_hashes ledger.leaves in
    let size : length hashes ≡ length ledger.leaves = length-map (λ x. x.leaf_hash) ledger.leaves in
    let below = length-pos_of_get_elem? ledger.leaves i l at in
    let path : length (proof_path (hashes ∷ rest) i) ≡ length rest =
      length-proof_path e.packages hashes rest i in
    let bounds = IsTower-length e.packages hashes rest tower (omega arith) in
    record {
      named = refl;
      listed = rw (at, ← named);
      folds =
          rw (← get_or-leaf_hashes ledger.leaves i l at)
            (fold_merkle_proof-proof_path e.packages hashes rest i tower (omega arith));
      enough = rw path (omega arith);
      short = rw path (omega arith);
    }

-- Every answer of `getProof` is an inclusion proof: the leaf it names is in the ledger at the index it
-- names, the browser's fold of the path gives the root, and the path is as short as a binary tree allows.
pub get_proof-IsInclusionProof :
    (e : Env) (ledger : Ledger) (tx_id : String) (d : ProofDetails)
    → get_proof e ledger tx_id ≡ some d
    → IsInclusionProof e ledger tx_id d
unfolding get_proof
get_proof-IsInclusionProof e ledger tx_id d h =
    let ((i, l), found, mapped) = (Option.bind-eq-some_iff _ _).0 h in
    let (levels, made, same) = (Option.map-eq-some_iff _ _).0 mapped in
    let (j, index, below, at, named) = find_leaf_sound 0 tx_id ledger.leaves i l found in
    let at' : get_elem? ledger.leaves i ≡ some l = rw (index, zero-add) at in
    let hashes = leaf_hashes ledger.leaves in
    let size : length hashes ≡ length ledger.leaves = length-map (λ x. x.leaf_hash) ledger.leaves in
    let (rest, whole, tower) = merkle_levels-IsTower e hashes levels (omega arith) made in
    subst (IsInclusionProof e ledger tx_id) (ap (proof_details tx_id (i, l)) whole ∙ same)
      (proof_details-IsInclusionProof e ledger tx_id i l rest at' named tower)

abbrev pub is_recorded : Ledger → String → Bool
is_recorded ledger tx_id = any (λ l. l.tx_id == tx_id) ledger.leaves

-- `getProof` answers exactly for the transactions that have a leaf, with an inclusion proof: the loop over
-- the levels always ends.
pub get_proof_total :
    (e : Env) (ledger : Ledger) (tx_id : String)
    → ((is_recorded ledger tx_id ≡ true)
        × (d : ProofDetails) × (get_proof e ledger tx_id ≡ some d)
        × IsInclusionProof e ledger tx_id d)
      ⊎ ((is_recorded ledger tx_id ≡ false) × (get_proof e ledger tx_id ≡ none))
unfolding get_proof Option.bind
get_proof_total e ledger tx_id = elim (Bool-cases (is_recorded ledger tx_id)) [
  | inl recorded ↦
      let (i, l, found) = find_leaf_complete 0 tx_id ledger.leaves recorded in
      let (levels, made) = merkle_levels_total e (leaf_hashes ledger.leaves) in
      let answer : get_proof e ledger tx_id ≡ some (proof_details tx_id (i, l) levels) =
        rw (found, made) in
      inl (
        recorded,
        proof_details tx_id (i, l) levels,
        answer,
        get_proof-IsInclusionProof e ledger tx_id _ answer,
      )
  | inr absent ↦ inr (absent, rw (find_leaf_absent 0 tx_id ledger.leaves absent))
]
