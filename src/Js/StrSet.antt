-- ===== src/Js/StrSet.antt =====
-- A JavaScript `Set` of texts, in insertion order.
use finlabs_explore.Prelude.{
  String, ◌≡◌, refl, Bool, false, ◌||◌, ◌&&◌, not, List, [], ◌∷◌, arith, ◌==◌, eq_iff,
  if◌then◌else◌,
}

pub record StrSet : Type 0 where
  pub items : List String

abbrev pub has_item : String → List String → Bool
has_item a [] = false
has_item a (x ∷ xs) = x == a || has_item a xs

abbrev add_item : String → List String → List String
add_item a [] = a ∷ []
add_item a (x ∷ xs) = if x == a then x ∷ xs else x ∷ add_item a xs

abbrev without : String → List String → List String
without a [] = []
without a (x ∷ xs) = let rest = without a xs in if x == a then rest else x ∷ rest

-- `new Set()`
unfoldable pub empty : StrSet
empty = record { items = [] }

unfoldable pub has : StrSet → String → Bool
has s a = has_item a s.items

-- `s.add(a)`
unfoldable pub add : StrSet → String → StrSet
add s a = record { items = add_item a s.items }

-- `s.delete(a)`
unfoldable pub delete : StrSet → String → StrSet
delete s a = record { items = without a s.items }

has_item-add :
    (a b : String) (xs : List String) → has_item b (add_item a xs) ≡ (a == b || has_item b xs)
has_item-add a b [] = refl
has_item-add a b (x ∷ xs) = ground (arith, has_item-add a b xs, eq_iff x a, eq_iff x b, eq_iff a b)

has_item-without :
    (a b : String) (xs : List String) → has_item b (without a xs) ≡ (not (a == b) && has_item b xs)
has_item-without a b [] = ground arith
has_item-without a b (x ∷ xs) =
    ground (arith, has_item-without a b xs, eq_iff x a, eq_iff x b, eq_iff a b)

pub has-add : (s : StrSet) (a b : String) → has (add s a) b ≡ (a == b || has s b)
unfolding has add
has-add s a b = has_item-add a b s.items

pub has-delete : (s : StrSet) (a b : String) → has (delete s a) b ≡ (not (a == b) && has s b)
unfolding has delete
has-delete s a b = has_item-without a b s.items

pub has-empty : (a : String) → has empty a ≡ false
unfolding has empty
has-empty a = refl

pub ruleset set_laws = (has-empty, has-add, has-delete)
