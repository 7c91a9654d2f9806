-- ===== src/Js/Dict.antt =====
-- A JavaScript `Map` with texts for keys: entries in insertion order, a write to a known key in place.
use finlabs_explore.Prelude.{
  String, ◌≡◌, refl, Bool, true, false, Option, none, some, List, [], ◌∷◌, ◌++◌, ap, inl, inr,
  Bool-cases, arith, ◌==◌, eq_iff, if◌then◌else◌,
}

pub record Dict {ℓ} (V : Type ℓ) : Type ℓ where
  pub entries : List (String × V)

module _ {ℓ} {V : Type ℓ} where
  abbrev lookup : String → List (String × V) → Option V
  lookup k [] = none
  lookup k ((j, v) ∷ m) = if j == k then some v else lookup k m

  abbrev insert : String → V → List (String × V) → List (String × V)
  insert k v [] = (k, v) ∷ []
  insert k v ((j, w) ∷ m) = if j == k then (j, v) ∷ m else (j, w) ∷ insert k v m

  abbrev seconds : List (String × V) → List V
  seconds [] = []
  seconds ((j, v) ∷ m) = v ∷ seconds m

  unfoldable pub empty : Dict V
  empty = record { entries = [] }

  -- `m.get(k)`
  unfoldable pub get : Dict V → String → Option V
  get m k = lookup k m.entries

  -- `m.has(k)`
  unfoldable pub has : Dict V → String → Bool
  unfolding get
  has m k = elim (get m k) [ none ↦ false | some _ ↦ true ]

  -- `m.set(k, v)`
  unfoldable pub put : Dict V → String → V → Dict V
  put m k v = record { entries = insert k v m.entries }

  -- `[...m.values()]`
  unfoldable pub values : Dict V → List V
  values m = seconds m.entries

  lookup-insert :
      (k j : String) (v : V) (m : List (String × V))
      → lookup j (insert k v m) ≡ (if k == j then some v else lookup j m)
  lookup-insert k j v [] = refl
  lookup-insert k j v ((i, w) ∷ m) =
      ground (arith, eq_iff k j, eq_iff i k, eq_iff i j, lookup-insert k j v m)

  pub get-put :
      (m : Dict V) (k j : String) (v : V) → get (put m k v) j ≡ (if k == j then some v else get m j)
  unfolding get put
  get-put m k j v = lookup-insert k j v m.entries

module _ {ℓ} {V : Type ℓ} where
  insert-fresh :
      (k : String) (v : V) (m : List (String × V))
      → lookup k m ≡ none
      → insert k v m ≡ m ++ (k, v) ∷ []
  insert-fresh k v [] h = refl
  insert-fresh k v ((j, w) ∷ m) h = elim (Bool-cases (j == k)) [
    | inl same ↦ absurd (cc (rw same at h))
    | inr other ↦ rw other (ap (λ rest. (j, w) ∷ rest) (insert-fresh k v m (rw other at h)))
  ]

  -- A write to an unknown key comes last.
  pub put-fresh :
      (m : Dict V) (k : String) (v : V)
      → get m k ≡ none
      → (put m k v).entries ≡ m.entries ++ (k, v) ∷ []
  unfolding get put
  put-fresh m k v h = insert-fresh k v m.entries h

pub get-put_same {ℓ} : {V : Type ℓ} (m : Dict V) (k : String) (v : V) → get (put m k v) k ≡ some v
get-put_same m k v = rw (get-put, (eq_iff k k).1 refl) refl

pub get-empty {ℓ} : {V : Type ℓ} (k : String) → get (empty {V = V}) k ≡ none
unfolding get empty
get-empty k = refl

pub ruleset dict_laws = (get-empty, get-put)
