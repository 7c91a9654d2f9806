-- ===== src/Spec/Merging.antt =====
-- What `loadMergedSpec` of standin-service/src/spec.ts returns, beside the documents that it read.
use mathlib.Core.Option
use finlabs_explore.Prelude.{
  String, ◌≡◌, refl, ap, ◌∙◌, Bool, true, false, ◌||◌, Bool-cases, Option-cases, inl, inr, Option,
  none, some, List, [], ◌∷◌, ◌==◌, eq_iff, eq_refl, if◌then◌else◌,
}
use finlabs_explore.Json.{
  Json, null, bool, number, text, arr, obj, Fields, end, field, field_of, set_field,
}
use finlabs_explore.Spec.{
  is_defined, is_inherited, is_in, strip, strip_object, is_typeless_nullable, add_new, section_of,
  Merged, merge_doc, merge_docs, new_merged, strip_merged, at_object, set_in, accept_in_enum,
  relax_accepted_status, add_proof_path, has_proof_schemas, prepare, load_all, merge_loaded,
  load_merged_spec, merge_read,
}
use finlabs_explore.Spec.Clean.{field_of-strip_fields, field_of-set_field}
use finlabs_explore.World.{Outcome, returned}

abbrev or_else : Option Json → Option Json → Option Json
or_else (some v) o = some v
or_else none o = o

-- What the first of the documents that defines the name in the section says of it.
unfoldable pub first_defined : (section name : String) → List Fields → Option Json
first_defined section name [] = none
first_defined section name (doc ∷ docs) =
    or_else (field_of name (section_of section doc)) (first_defined section name docs)

is_in_lem : (k : String) (fs : Fields) → is_in k fs ≡ (is_inherited k || is_defined (field_of k fs))
unfolding is_in
is_in_lem k fs = refl

-- The object after one round.
abbrev add_one : String → Json → Fields → Fields
add_one k def had = if is_in k had then had else set_field k def had

field_of-add_one_other :
    (name k : String) (def : Json) (had : Fields)
    → (k == name) ≡ false
    → field_of name (add_one k def had) ≡ field_of name had
field_of-add_one_other name k def had other = elim (Bool-cases (is_in k had)) [
  | inl there ↦ rw there refl
  | inr new ↦ rw (new, field_of-set_field, other) refl
]

field_of-add_one_same :
    (name : String) (def : Json) (had : Fields)
    → field_of name (add_one name def had)
      ≡ (if is_inherited name then field_of name had else or_else (field_of name had) (some def))
field_of-add_one_same name def had = rw is_in_lem (elim (Bool-cases (is_inherited name)) [
  | inl own ↦ rw own refl
  | inr free ↦ elim (Option-cases (field_of name had)) [
    | inl new ↦ rw (free, new, field_of-set_field, eq_refl) refl
    | inr (v, at) ↦ rw (free, at) at
  ]
])

field_of-here : (k : String) (v : Json) (fs : Fields) → field_of k (field k v fs) ≡ some v
unfolding field_of
field_of-here k v fs = rw eq_refl refl

field_of-there :
    (k j : String) (v : Json) (fs : Fields)
    → (j == k) ≡ false
    → field_of k (field j v fs) ≡ field_of k fs
unfolding field_of
field_of-there k j v fs other = rw other refl

or_else-or_else : (o p q : Option Json) → or_else (or_else o p) q ≡ or_else o (or_else p q)
or_else-or_else none p q = refl
or_else-or_else (some v) p q = refl

or_else-none : (o : Option Json) → or_else o none ≡ o
or_else-none none = refl
or_else-none (some v) = refl

if_same : (b : Bool) (o : Option Json) → (if b then o else o) ≡ o
if_same true o = refl
if_same false o = refl

field_of-end : (k : String) → field_of k end ≡ none
unfolding field_of
field_of-end k = refl

field_of-add_new :
    (name : String) (had more : Fields)
    → field_of name (add_new had more) ≡ (
        if is_inherited name
        then field_of name had
        else or_else (field_of name had) (field_of name more))
unfolding add_new
field_of-add_new name had end = rw (field_of-end, or_else-none, if_same) refl
field_of-add_new name had (field k def more) = elim (Bool-cases (k == name)) [
  | inl same ↦
      let at : k ≡ name = (eq_iff k name).0 same in
      rw
        (
          at,
          field_of-add_new name (add_one name def had) more,
          field_of-add_one_same,
          field_of-here,
        )
        (elim (Bool-cases (is_inherited name)) [
          | inl own ↦ rw own refl
          | inr free ↦ rw free (or_else-or_else (field_of name had) (some def) (field_of name more))
        ])
  | inr other ↦
      rw
        (
          field_of-add_new name (add_one k def had) more,
          field_of-add_one_other name k def had other,
          field_of-there name k def more other,
        )
        refl
]

-- What the merge leaves under the name in one section: `pick` reads the section.
field_of-merge_docs :
    (pick : Merged → Fields) (section name : String)
    → ((m : Merged) (doc : Fields)
        → pick (merge_doc m doc) ≡ add_new (pick m) (section_of section doc))
    → (m : Merged) (docs : List Fields)
    → field_of name (pick (merge_docs m docs)) ≡ (
        if is_inherited name
        then field_of name (pick m)
        else or_else (field_of name (pick m)) (first_defined section name docs))
unfolding merge_docs first_defined
field_of-merge_docs pick section name h m [] = rw (or_else-none, if_same) refl
field_of-merge_docs pick section name h m (doc ∷ docs) =
    rw (field_of-merge_docs pick section name h (merge_doc m doc) docs, h m doc, field_of-add_new)
      (elim (Bool-cases (is_inherited name)) [
        | inl own ↦ rw own refl
        | inr free ↦ rw (free, or_else-or_else) refl
      ])

-- What the loaded document is to have under the name in the section.
abbrev pub loaded : (section name : String) → List Fields → Option Json
loaded section name docs =
    if is_inherited name then none else Option.map strip (first_defined section name docs)

field_of-strip_object :
    (name : String) (fs : Fields)
    → (name == "nullable") ≡ false
    → field_of name (strip_object fs) ≡ Option.map strip (field_of name fs)
field_of-strip_object name fs h = field_of-strip_fields (is_typeless_nullable fs) name fs h

map_loaded :
    (name : String) (o : Option Json)
    → Option.map strip (if is_inherited name then none else o)
      ≡ (if is_inherited name then none else Option.map strip o)
map_loaded name o = elim (Bool-cases (is_inherited name)) [
  | inl own ↦ rw own refl
  | inr free ↦ rw free refl
]

-- As `field_of-merge_docs`, from the empty object, and stripped.
stripped_section :
    (pick : Merged → Fields) (section name : String)
    → ((m : Merged) (doc : Fields)
        → pick (merge_doc m doc) ≡ add_new (pick m) (section_of section doc))
    → (base : Fields) (docs : List Fields) → pick (new_merged base) ≡ end
    → (name == "nullable") ≡ false
    → field_of name (strip_object (pick (merge_docs (new_merged base) docs)))
      ≡ loaded section name docs
stripped_section pick section name step base docs start h =
    rw
      (
        field_of-strip_object name (pick (merge_docs (new_merged base) docs)) h,
        field_of-merge_docs pick section name step (new_merged base) docs,
        start,
        field_of-end,
      )
      (map_loaded name (first_defined section name docs))

field_of-set_in :
    (k name : String) (f : Fields → Fields) (fs : Fields) (o : Option Json)
    → (k == name) ≡ false
    → field_of name (set_in k f fs o) ≡ field_of name fs
field_of-set_in k name f fs none h = refl
field_of-set_in k name f fs (some null) h = refl
field_of-set_in k name f fs (some (bool b)) h = refl
field_of-set_in k name f fs (some (number n)) h = refl
field_of-set_in k name f fs (some (text s)) h = refl
field_of-set_in k name f fs (some (arr xs)) h = refl
field_of-set_in k name f fs (some (obj g)) h = rw (field_of-set_field, h) refl

field_of-at_object :
    (k name : String) (f : Fields → Fields) (fs : Fields)
    → (k == name) ≡ false
    → field_of name (at_object k f fs) ≡ field_of name fs
unfolding at_object
field_of-at_object k name f fs h = field_of-set_in k name f fs (field_of k fs) h

-- The document that the documents read are merged into.
abbrev pub merged_of : Fields → List Fields → Merged
merged_of base rest = merge_docs (new_merged base) (base ∷ rest)

pub load_merged_spec-returned :
    (load : String → Outcome Fields) (paths : List String) (base : Fields) (rest : List Fields)
    → load_all load paths ≡ returned (base ∷ rest)
    → load_merged_spec load paths ≡ returned (prepare (merged_of base rest))
unfolding load_merged_spec merge_loaded
load_merged_spec-returned load paths base rest read = ap merge_read read

-- What `prepare` makes of the four sections.
pub prepare-sections :
    (m : Merged)
    → ((prepare m).schemas ≡ (relax_accepted_status (strip_merged m)).schemas)
      × ((prepare m).responses ≡ strip_object m.responses)
      × ((prepare m).parameters ≡ strip_object m.parameters)
      × ((prepare m).security_schemes ≡ strip_object m.security_schemes)
unfolding prepare add_proof_path relax_accepted_status strip_merged
prepare-sections m =
    elim (Bool-cases (has_proof_schemas (relax_accepted_status (strip_merged m)).schemas)) [
      | inl both ↦ (rw both refl, rw both refl, rw both refl, rw both refl)
      | inr lacking ↦ (rw lacking refl, rw lacking refl, rw lacking refl, rw lacking refl)
    ]

relaxed_schemas :
    (m : Merged) (name : String)
    → ("ResponseContext" == name) ≡ false
    → field_of name (relax_accepted_status (strip_merged m)).schemas
      ≡ field_of name (strip_object m.schemas)
unfolding relax_accepted_status strip_merged
relaxed_schemas m name other =
    field_of-at_object "ResponseContext" name
      (at_object "properties" (at_object "status" accept_in_enum)) (strip_object m.schemas) other

-- Where the documents are read, a first one and further ones, loadMergedSpec returns a document in
-- which each of the four sections of the components has, under any name but nullable and
-- ResponseContext, what the first of the documents that defines the name in that section says of it,
-- without its typeless nullables; and nothing under a name that every JavaScript object inherits.
pub loaded_sections :
    (load : String → Outcome Fields) (paths : List String) (base : Fields) (rest : List Fields)
    (name : String)
    → load_all load paths ≡ returned (base ∷ rest)
    → (name == "nullable") ≡ false
    → ("ResponseContext" == name) ≡ false
    → (m : Merged) × (load_merged_spec load paths ≡ returned m)
      × (field_of name m.schemas ≡ loaded "schemas" name (base ∷ rest))
      × (field_of name m.responses ≡ loaded "responses" name (base ∷ rest))
      × (field_of name m.parameters ≡ loaded "parameters" name (base ∷ rest))
      × (field_of name m.security_schemes ≡ loaded "securitySchemes" name (base ∷ rest))
unfolding merge_doc new_merged
loaded_sections load paths base rest name read not_nullable other =
    let (s, r, p, q) = prepare-sections (merged_of base rest) in
    (
      prepare (merged_of base rest),
      load_merged_spec-returned load paths base rest read,
      ap (field_of name) s
          ∙ relaxed_schemas (merged_of base rest) name other
          ∙ stripped_section (λ m. m.schemas) "schemas" name (λ m doc. refl) base (base ∷ rest) refl
              not_nullable,
      ap (field_of name) r
          ∙ stripped_section (λ m. m.responses) "responses" name (λ m doc. refl) base (base ∷ rest)
              refl not_nullable,
      ap (field_of name) p
          ∙ stripped_section (λ m. m.parameters) "parameters" name (λ m doc. refl) base
              (base ∷ rest) refl not_nullable,
      ap (field_of name) q
          ∙ stripped_section (λ m. m.security_schemes) "securitySchemes" name (λ m doc. refl) base
              (base ∷ rest) refl not_nullable,
    )
