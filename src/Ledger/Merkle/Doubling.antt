-- ===== src/Ledger/Merkle/Doubling.antt =====
-- An odd level is completed by its last hash, so two ledgers can share a root.
use mathlib.Core.Option
use finlabs_explore.Prelude.{
  ℕ, zero, suc, ◌*◌, String, ◌≡◌, refl, ap, sym, ◌∙◌, some, List, [], ◌∷◌, ◌++◌, length, arith, ◌<◌,
  subst,
}
use finlabs_explore.Crypto.Packages.{Primitives}
use finlabs_explore.Ledger.Merkle.{merkle_root, next_level, merkle_levels}
use finlabs_explore.Ledger.Merkle.Fold.{IsTower, levels_above-IsTower, levels_above_total}

module _ (p : Primitives) where
  next_level_double :
      (xs : List String) (x : String) (k : ℕ)
      → length xs ≡ 2 * k
      → next_level p (xs ++ x ∷ x ∷ []) ≡ next_level p (xs ++ x ∷ [])
  unfolding next_level
  next_level_double [] x k h = refl
  next_level_double (a ∷ []) x k h = absurd (omega arith)
  next_level_double (a ∷ b ∷ xs) x zero h = absurd (omega arith)
  next_level_double (a ∷ b ∷ xs) x (suc k) h = rw (next_level_double xs x k (omega arith))

  IsTower-unique :
      (cur : List String) (above over : List (List String))
      → IsTower p cur above
      → IsTower p cur over
      → above ≡ over
  IsTower-unique cur [] [] tower tower' = refl
  IsTower-unique cur [] (b ∷ over) tower (two, _, _) = absurd (omega arith)
  IsTower-unique cur (a ∷ above) [] (two, _, _) tower' = absurd (omega arith)
  IsTower-unique cur (a ∷ above) (b ∷ over) (_, made, tower) (_, made', tower') =
      let same : b ≡ a = made' ∙ sym made in
      ap (λ xs. a ∷ xs)
        (IsTower-unique a above over tower (subst (λ c. IsTower p c over) same tower'))
      ∙ ap (λ c. c ∷ over) (sym same)

  -- Two towers over lists with one next level end in one root.
  root_of_next :
      (xs ys : List String) (above over : List (List String))
      → next_level p xs ≡ next_level p ys
      → 1 < length xs
      → 1 < length ys
      → IsTower p xs above
      → IsTower p ys over
      → merkle_root (xs ∷ above) ≡ merkle_root (ys ∷ over)
  unfolding merkle_root
  root_of_next xs ys [] over same two two' tower tower' = absurd (omega arith)
  root_of_next xs ys (a ∷ above) [] same two two' tower tower' = absurd (omega arith)
  root_of_next xs ys (a ∷ above) (b ∷ over) same two two' (_, made, tower) (_, made', tower') =
      let next : b ≡ a = made' ∙ sym same ∙ sym made in
      ap merkle_root (
        ap (λ c. a ∷ c)
          (IsTower-unique a above over tower (subst (λ c. IsTower p c over) next tower'))
        ∙ ap (λ c. c ∷ over) (sym next))

  -- Of a list of leaves of odd length, three at least, the root stays the same when its last leaf is
  -- listed once more.
  pub merkle_root_doubling :
      (x y : String) (xs : List String) (last : String) (k : ℕ)
      → length xs ≡ 2 * k
      → Option.map merkle_root (merkle_levels p (x ∷ y ∷ xs ++ last ∷ last ∷ []))
        ≡ Option.map merkle_root (merkle_levels p (x ∷ y ∷ xs ++ last ∷ []))
  unfolding merkle_levels
  merkle_root_doubling x y xs last k even =
      let one = x ∷ y ∷ xs ++ last ∷ [] in
      let two = x ∷ y ∷ xs ++ last ∷ last ∷ [] in
      let (above, made) = levels_above_total p (length one) one (omega arith) (omega arith) in
      let (over, made') = levels_above_total p (length two) two (omega arith) (omega arith) in
      rw (made, made')
        (ap some (
          root_of_next two one over above
            (next_level_double (x ∷ y ∷ xs) last (suc k) (omega arith)) (omega arith) (omega arith)
            (levels_above-IsTower p (length two) two over made')
            (levels_above-IsTower p (length one) one above made)))
