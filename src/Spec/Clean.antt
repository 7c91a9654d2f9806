-- ===== src/Spec/Clean.antt =====
-- After `loadMergedSpec` of standin-service/src/spec.ts, no object of the document has `nullable: true`
-- without a `type`.
use mathlib.Core.Option
use finlabs_explore.Prelude.{
  String, ◌≡◌, refl, ◌∙◌, Bool, true, false, not, ◌&&◌, Bool-cases, inl, inr, Option, none, some,
  arith, ◌==◌, eq_iff, if◌then◌else◌,
}
use finlabs_explore.Json.{
  Json, null, bool, number, text, arr, obj, Items, nil, cons, Fields, end, field, field_of,
  set_field,
}
use finlabs_explore.Spec.{
  is_true, is_defined, is_typeless_nullable, strip, strip_items, strip_fields, strip_object,
}

-- No object in the value is typeless and nullable.
unfoldable mutual
  pub is_clean : Json → Bool
  is_clean null = true
  is_clean (bool b) = true
  is_clean (number n) = true
  is_clean (text s) = true
  is_clean (arr xs) = is_clean_items xs
  is_clean (obj fs) = not (is_typeless_nullable fs) && is_clean_fields fs

  pub is_clean_items : Items → Bool
  is_clean_items nil = true
  is_clean_items (cons x xs) = is_clean x && is_clean_items xs

  pub is_clean_fields : Fields → Bool
  is_clean_fields end = true
  is_clean_fields (field k v fs) = is_clean v && is_clean_fields fs

-- A field that is not `nullable` is there as before, stripped.
pub field_of-strip_fields :
    (drop : Bool) (k : String) (fs : Fields)
    → (k == "nullable") ≡ false
    → field_of k (strip_fields drop fs) ≡ Option.map strip (field_of k fs)
unfolding field_of strip_fields
field_of-strip_fields drop k end h = refl
field_of-strip_fields drop k (field j v fs) h =
    ground (
      arith,
      field_of-strip_fields drop k fs h,
      eq_iff j k,
      eq_iff j "nullable",
      eq_iff k "nullable",
    )

kept_nullable :
    (fs : Fields)
    → field_of "nullable" (strip_fields false fs) ≡ Option.map strip (field_of "nullable" fs)
unfolding field_of strip_fields
kept_nullable end = refl
kept_nullable (field j v fs) = ground (arith, kept_nullable fs)

dropped_nullable : (fs : Fields) → field_of "nullable" (strip_fields true fs) ≡ none
unfolding field_of strip_fields
dropped_nullable end = refl
dropped_nullable (field j v fs) = ground (arith, dropped_nullable fs, eq_iff j "nullable")

is_true-strip : (o : Option Json) → is_true (Option.map strip o) ≡ is_true o
unfolding strip
is_true-strip none = refl
is_true-strip (some null) = refl
is_true-strip (some (bool b)) = refl
is_true-strip (some (number n)) = refl
is_true-strip (some (text s)) = refl
is_true-strip (some (arr xs)) = refl
is_true-strip (some (obj fs)) = refl

is_defined-strip : (o : Option Json) → is_defined (Option.map strip o) ≡ is_defined o
is_defined-strip none = refl
is_defined-strip (some v) = refl

kept_typeless :
    (fs : Fields) → is_typeless_nullable (strip_fields false fs) ≡ is_typeless_nullable fs
unfolding is_typeless_nullable
kept_typeless fs =
    rw
      (
        kept_nullable fs,
        field_of-strip_fields false "type" fs refl,
        is_true-strip,
        is_defined-strip,
      )
      refl

strip_object-typed : (fs : Fields) → is_typeless_nullable (strip_object fs) ≡ false
strip_object-typed fs = elim (Bool-cases (is_typeless_nullable fs)) [
  | inl bad ↦ rw bad (unfold is_typeless_nullable in rw (dropped_nullable fs) refl)
  | inr good ↦ rw good (kept_typeless fs ∙ good)
]

mutual
  unfolding strip is_clean

  pub strip-is_clean : (j : Json) → is_clean (strip j) ≡ true
  strip-is_clean null = refl
  strip-is_clean (bool b) = refl
  strip-is_clean (number n) = refl
  strip-is_clean (text s) = refl
  strip-is_clean (arr xs) = strip_items-is_clean xs
  strip-is_clean (obj fs) =
      rw (strip_object-typed fs) (strip_fields-is_clean (is_typeless_nullable fs) fs)

  strip_items-is_clean : (xs : Items) → is_clean_items (strip_items xs) ≡ true
  strip_items-is_clean nil = refl
  strip_items-is_clean (cons x xs) = rw (strip-is_clean x) (strip_items-is_clean xs)

  strip_fields-is_clean :
      (drop : Bool) (fs : Fields) → is_clean_fields (strip_fields drop fs) ≡ true
  strip_fields-is_clean drop end = refl
  strip_fields-is_clean drop (field k v fs) = elim (Bool-cases (drop && k == "nullable")) [
    | inl gone ↦ rw gone (strip_fields-is_clean drop fs)
    | inr kept ↦ rw (kept, strip-is_clean v) (strip_fields-is_clean drop fs)
  ]

pub strip_object-is_clean : (fs : Fields) → is_clean (obj (strip_object fs)) ≡ true
unfolding is_clean
strip_object-is_clean fs =
    rw (strip_object-typed fs) (strip_fields-is_clean (is_typeless_nullable fs) fs)

pub field_of-set_field :
    (k j : String) (v : Json) (fs : Fields)
    → field_of j (set_field k v fs) ≡ (if k == j then some v else field_of j fs)
unfolding field_of set_field
field_of-set_field k j v end = refl
field_of-set_field k j v (field i w fs) =
    ground (arith, eq_iff k j, eq_iff i k, eq_iff i j, field_of-set_field k j v fs)

set_field-is_clean_fields :
    (k : String) (v : Json) (fs : Fields)
    → is_clean v ≡ true
    → is_clean_fields fs ≡ true
    → is_clean_fields (set_field k v fs) ≡ true
unfolding set_field is_clean
set_field-is_clean_fields k v end hv h = rw hv refl
set_field-is_clean_fields k v (field i w fs) hv h = ground (arith, set_field-is_clean_fields k v fs)

-- A write at another key than `nullable` and `type` keeps an object clean.
pub set_field-is_clean :
    (k : String) (v : Json) (fs : Fields)
    → (k == "nullable") ≡ false
    → (k == "type") ≡ false
    → is_clean v ≡ true
    → is_clean (obj fs) ≡ true
    → is_clean (obj (set_field k v fs)) ≡ true
unfolding is_clean
set_field-is_clean k v fs kn kt hv h =
    let same : is_typeless_nullable (set_field k v fs) ≡ is_typeless_nullable fs =
      unfold is_typeless_nullable in rw (field_of-set_field, field_of-set_field, kn, kt) refl in
    rw same (ground (arith, set_field-is_clean_fields k v fs))

pub field_of-is_clean :
    (k : String) (v : Json) (fs : Fields)
    → field_of k fs ≡ some v
    → is_clean_fields fs ≡ true
    → is_clean v ≡ true
unfolding field_of is_clean
field_of-is_clean k v end at h = cc at
field_of-is_clean k v (field j w fs) at h = elim (Bool-cases (j == k)) [
  | inl here ↦
      let found : some w ≡ some v = rw here at at in
      let same : w ≡ v = Option.some-injective _ _ found in rw (← same) (ground arith)
  | inr there ↦ field_of-is_clean k v fs (rw there at at) (ground arith)
]
