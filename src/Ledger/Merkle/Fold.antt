-- ===== src/Ledger/Merkle/Fold.antt =====
-- A proof path folds to the root, and the loop over the levels ends.
use mathlib.Core.Option
use mathlib.Core.Option.{some-injective}
use native.Mathlib.Nat.{pow-suc}
use finlabs_explore.Prelude.{
  ℕ, zero, suc, ◌+◌, ◌-◌, ◌*◌, ◌%◌, ◌/◌, ◌≤◌, ◌<◌, ◌^◌, sym, subst, String, ◌≡◌, refl, ap, ◌∙◌,
  some, List, [], ◌∷◌, length, get_or, ltb, ltb→lt, inl, inr, Bool-cases, arith,
}
use finlabs_explore.Crypto.Packages.{Primitives}
use finlabs_explore.Ledger.Merkle.{
  path_node, proof_path, merkle_root, hash_pair, next_level, levels_above,
}
use finlabs_explore.Wallet.Crypto.{fold_step, fold_merkle_proof}

parity_shift : (n : ℕ) → suc (suc n) % 2 ≡ n % 2
parity_shift n = omega arith

sub_shift : (n : ℕ) → suc (suc (suc n)) - 1 ≡ suc (suc (suc n - 1))
sub_shift n = omega arith

add_shift : (n : ℕ) → suc (suc n) + 1 ≡ suc (suc (n + 1))
add_shift n = omega arith

half_shift : (n : ℕ) → suc (suc n) / 2 ≡ suc (n / 2)
half_shift n = omega arith

path_node_shift :
    (l r : String) (cur : List String) (idx : ℕ)
    → idx < length cur
    → path_node (l ∷ r ∷ cur) (suc (suc idx)) ≡ path_node cur idx
unfolding path_node
path_node_shift l r cur zero h = ground arith
path_node_shift l r cur (suc idx) h =
    rw (parity_shift (suc idx), sub_shift idx, add_shift (suc idx)) (ground arith)

module _ (p : Primitives) where
  pub length-next_level :
      (cur : List String)
      → (length (next_level p cur) * 2 ≤ length cur + 1)
        × (length cur ≤ length (next_level p cur) * 2)
  unfolding next_level
  length-next_level [] = omega arith
  length-next_level (l ∷ []) = omega arith
  length-next_level (l ∷ r ∷ cur) = omega (arith, length-next_level cur)

  -- One step of the fold from position `idx` gives position `idx / 2` of the level above.
  fold_step-path_node :
      (cur : List String) (idx : ℕ)
      → idx < length cur
      → fold_step p (get_or cur idx "") (path_node cur idx) ≡ get_or (next_level p cur) (idx / 2) ""
  unfolding next_level fold_step path_node hash_pair
  fold_step-path_node [] idx h = elim h [ ]
  fold_step-path_node (l ∷ []) zero h = refl
  fold_step-path_node (l ∷ []) (suc idx) h = absurd (omega arith)
  fold_step-path_node (l ∷ r ∷ cur) zero h = ground arith
  fold_step-path_node (l ∷ r ∷ cur) (suc zero) h = ground arith
  fold_step-path_node (l ∷ r ∷ cur) (suc (suc idx)) h =
      rw (path_node_shift l r cur idx (omega arith), half_shift idx)
        (fold_step-path_node cur idx (omega arith))

  -- The levels above `cur`, without fuel: as long as there are two hashes, the next level follows.
  abbrev pub IsTower : List String → List (List String) → Type 0
  IsTower cur [] = length cur ≤ 1
  IsTower cur (above ∷ rest) = (1 < length cur) × (above ≡ next_level p cur) × IsTower above rest

  pub levels_above-IsTower :
      (fuel : ℕ) (cur : List String) (rest : List (List String))
      → levels_above p fuel cur ≡ some rest
      → IsTower cur rest
  unfolding levels_above
  levels_above-IsTower zero cur rest e = cc
  levels_above-IsTower (suc fuel) cur rest e = elim (Bool-cases (ltb 1 (length cur))) [
    | inl more ↦
        let (above, made, same) = (Option.map-eq-some_iff _ _).0 (rw more at e) in
        rw (← same) (
          ltb→lt 1 (length cur) more,
          refl,
          levels_above-IsTower fuel (next_level p cur) above made,
        )
    | inr done ↦
        let same : [] ≡ rest = some-injective _ _ (rw done at e) in
        subst (λ r. IsTower cur r) same (ground arith)
  ]

  -- The loop ends within as many rounds as there are leaves.
  pub levels_above_total :
      (fuel : ℕ) (cur : List String)
      → length cur ≤ fuel
      → 0 < fuel
      → (rest : List (List String)) × (levels_above p fuel cur ≡ some rest)
  unfolding levels_above
  levels_above_total zero cur h pos = elim pos [ ]
  levels_above_total (suc fuel) cur h pos = elim (Bool-cases (ltb 1 (length cur))) [
    | inl more ↦
        let two = ltb→lt 1 (length cur) more in
        let (rest, made) =
          levels_above_total fuel (next_level p cur) (omega (arith, length-next_level cur))
            (omega arith) in
        (next_level p cur ∷ rest, rw (more, made))
    | inr done ↦ ([], rw done)
  ]

  -- From any position of the lowest level, the path folds to the top.
  pub fold_merkle_proof-proof_path :
      (cur : List String) (rest : List (List String)) (idx : ℕ)
      → IsTower cur rest
      → idx < length cur
      → fold_merkle_proof p (get_or cur idx "") (proof_path (cur ∷ rest) idx)
        ≡ merkle_root (cur ∷ rest)
  unfolding fold_merkle_proof proof_path merkle_root
  fold_merkle_proof-proof_path cur [] idx tower h = ap (λ k. get_or cur k "") (omega arith)
  fold_merkle_proof-proof_path cur (above ∷ rest) idx (two, same, tower) h =
      let lower : idx / 2 < length above = rw same (omega (arith, length-next_level cur)) in
      ap (λ l. fold_merkle_proof p l (proof_path (above ∷ rest) (idx / 2)))
        (fold_step-path_node cur idx h ∙ ap (λ a. get_or a (idx / 2) "") (sym same))
      ∙ fold_merkle_proof-proof_path above rest (idx / 2) tower lower

  -- The number of rounds is the logarithm of the number of leaves, rounded up.
  pub IsTower-length :
      (cur : List String) (rest : List (List String))
      → IsTower cur rest
      → 0 < length cur
      → (length cur ≤ 2 ^ length rest) × (2 ^ length rest < 2 * length cur)
  IsTower-length cur [] tower pos = omega arith
  IsTower-length cur (above ∷ []) (two, same, tower) pos =
      let size : length above ≡ length (next_level p cur) = ap length same in
      omega (arith, length-next_level cur, size)
  IsTower-length cur (above ∷ top ∷ rest) (two, same, tower) pos =
      let size : length above ≡ length (next_level p cur) = ap length same in
      let ih =
        IsTower-length above (top ∷ rest) tower (omega (arith, length-next_level cur, size)) in
      rw (pow-suc 2 (suc (length rest)))
        (omega (arith, length-next_level cur, size, ih, pow-suc 2 (length rest)))

  pub length-proof_path :
      (cur : List String) (rest : List (List String)) (idx : ℕ)
      → length (proof_path (cur ∷ rest) idx) ≡ length rest
  unfolding proof_path
  length-proof_path cur [] idx = refl
  length-proof_path cur (above ∷ rest) idx = ap suc (length-proof_path above rest (idx / 2))
