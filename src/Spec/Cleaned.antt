-- ===== src/Spec/Cleaned.antt =====
-- No object of the document that `loadMergedSpec` of standin-service/src/spec.ts returns is nullable without
-- a type.
use mathlib.Core.Option
use finlabs_explore.Prelude.{
  String, ◌≡◌, refl, Bool, true, false, Bool-cases, inl, inr, Option, none, some, List, ◌∷◌, arith,
  ◌==◌,
}
use finlabs_explore.Json.{
  Json, null, bool, number, text, arr, obj, Items, nil, cons, Fields, end, field, field_of,
}
use finlabs_explore.Spec.{
  is_typeless_nullable, strip, Merged, strip_merged, set_in, at_object, accept_in_enum,
  accept_value, includes, append_item, relax_accepted_status, add_proof_path, has_proof_schemas,
  proof_path_item, prepare, document, optional_field, load_all, load_merged_spec,
}
use finlabs_explore.Spec.Clean.{
  is_clean, is_clean_items, strip_object-is_clean, strip-is_clean, set_field-is_clean,
  field_of-is_clean,
}
use finlabs_explore.Spec.Merging.{merged_of, load_merged_spec-returned}
use finlabs_explore.World.{Outcome, returned}

-- An edit of an object that leaves it clean.
abbrev KeepsClean : (Fields → Fields) → Type 0
KeepsClean f = (fs : Fields) → is_clean (obj fs) ≡ true → is_clean (obj (f fs)) ≡ true

found-is_clean :
    (k : String) (v : Json) (fs : Fields)
    → field_of k fs ≡ some v
    → is_clean (obj fs) ≡ true
    → is_clean v ≡ true
unfolding is_clean
found-is_clean k v fs at h = field_of-is_clean k v fs at (ground arith)

set_in-is_clean :
    (k : String) (f : Fields → Fields) (fs : Fields) (o : Option Json)
    → field_of k fs ≡ o
    → (k == "nullable") ≡ false
    → (k == "type") ≡ false
    → KeepsClean f
    → is_clean (obj fs) ≡ true
    → is_clean (obj (set_in k f fs o)) ≡ true
set_in-is_clean k f fs none at kn kt keep h = h
set_in-is_clean k f fs (some null) at kn kt keep h = h
set_in-is_clean k f fs (some (bool b)) at kn kt keep h = h
set_in-is_clean k f fs (some (number n)) at kn kt keep h = h
set_in-is_clean k f fs (some (text s)) at kn kt keep h = h
set_in-is_clean k f fs (some (arr xs)) at kn kt keep h = h
set_in-is_clean k f fs (some (obj g)) at kn kt keep h =
    set_field-is_clean k (obj (f g)) fs kn kt (keep g (found-is_clean k (obj g) fs at h)) h

at_object-KeepsClean :
    (k : String) (f : Fields → Fields)
    → (k == "nullable") ≡ false
    → (k == "type") ≡ false
    → KeepsClean f
    → KeepsClean (at_object k f)
unfolding at_object
at_object-KeepsClean k f kn kt keep =
    λ fs h. set_in-is_clean k f fs (field_of k fs) refl kn kt keep h

append_item-is_clean :
    (xs : Items) (v : Json)
    → is_clean_items xs ≡ true
    → is_clean v ≡ true
    → is_clean_items (append_item xs v) ≡ true
unfolding append_item is_clean
append_item-is_clean nil v h hv = ground arith
append_item-is_clean (cons x xs) v h hv = ground (arith, append_item-is_clean xs v)

appended-is_clean :
    (xs : Items) (s : String)
    → is_clean (arr xs) ≡ true
    → is_clean (arr (append_item xs (text s))) ≡ true
unfolding is_clean
appended-is_clean xs s h = append_item-is_clean xs (text s) h refl

accept_value-is_clean :
    (fs : Fields) (o : Option Json)
    → field_of "enum" fs ≡ o
    → is_clean (obj fs) ≡ true
    → is_clean (obj (accept_value fs o)) ≡ true
accept_value-is_clean fs none at h = h
accept_value-is_clean fs (some null) at h = h
accept_value-is_clean fs (some (bool b)) at h = h
accept_value-is_clean fs (some (number n)) at h = h
accept_value-is_clean fs (some (text s)) at h = h
accept_value-is_clean fs (some (obj g)) at h = h
accept_value-is_clean fs (some (arr xs)) at h = elim (Bool-cases (includes "accepted" xs)) [
  | inl there ↦ rw there h
  | inr new ↦ rw new (
      set_field-is_clean "enum" (arr (append_item xs (text "accepted"))) fs refl refl
        (appended-is_clean xs "accepted" (found-is_clean "enum" (arr xs) fs at h)) h)
]

accept_in_enum-KeepsClean : KeepsClean accept_in_enum
unfolding accept_in_enum
accept_in_enum-KeepsClean = λ fs h. accept_value-is_clean fs (field_of "enum" fs) refl h

abbrev is_clean_option : Option Json → Bool
is_clean_option none = true
is_clean_option (some v) = is_clean v

-- All the parts of the document are clean.
abbrev AreClean : Merged → Type 0
AreClean m =
    (is_clean_option m.openapi ≡ true)
    × (is_clean_option m.info ≡ true)
    × (is_clean (obj m.paths) ≡ true)
    × (is_clean (obj m.schemas) ≡ true)
    × (is_clean (obj m.responses) ≡ true)
    × (is_clean (obj m.parameters) ≡ true)
    × (is_clean (obj m.security_schemes) ≡ true)

stripped_option : (o : Option Json) → is_clean_option (Option.map strip o) ≡ true
stripped_option none = refl
stripped_option (some v) = strip-is_clean v

strip_merged-AreClean : (m : Merged) → AreClean (strip_merged m)
unfolding strip_merged
strip_merged-AreClean m = (
  stripped_option m.openapi,
  stripped_option m.info,
  strip_object-is_clean m.paths,
  strip_object-is_clean m.schemas,
  strip_object-is_clean m.responses,
  strip_object-is_clean m.parameters,
  strip_object-is_clean m.security_schemes,
)

relax_accepted_status-AreClean : (m : Merged) → AreClean m → AreClean (relax_accepted_status m)
unfolding relax_accepted_status
relax_accepted_status-AreClean m (o, i, p, s, r, q, z) = (
  o,
  i,
  p,
  at_object-KeepsClean "ResponseContext"
      (at_object "properties" (at_object "status" accept_in_enum)) refl refl
      (at_object-KeepsClean "properties" (at_object "status" accept_in_enum) refl refl
        (at_object-KeepsClean "status" accept_in_enum refl refl accept_in_enum-KeepsClean))
      m.schemas s,
  r,
  q,
  z,
)

proof_path_item-is_clean : is_clean proof_path_item ≡ true
unfolding is_clean proof_path_item is_typeless_nullable
proof_path_item-is_clean = refl

add_proof_path-AreClean : (m : Merged) → AreClean m → AreClean (add_proof_path m)
unfolding add_proof_path
add_proof_path-AreClean m (o, i, p, s, r, q, z) = elim (Bool-cases (has_proof_schemas m.schemas)) [
  | inl both ↦ rw both (
    o,
    i,
    set_field-is_clean "/v1/transaction/proof" proof_path_item m.paths refl refl
        proof_path_item-is_clean p,
    s,
    r,
    q,
    z,
  )
  | inr lacking ↦ rw lacking (o, i, p, s, r, q, z)
]

components-is_clean :
    (s r q z : Fields)
    → is_clean (obj s) ≡ true
    → is_clean (obj r) ≡ true
    → is_clean (obj q) ≡ true
    → is_clean (obj z) ≡ true
    → is_clean (
        obj (
          field "schemas" (obj s) (
            field "responses"
              (obj r)
              (field "parameters" (obj q) (field "securitySchemes" (obj z) end)))))
      ≡ true
unfolding is_clean is_typeless_nullable
components-is_clean s r q z hs hr hq hz = ground arith

whole-is_clean :
    (o i : Option Json) (p c : Json)
    → is_clean_option o ≡ true
    → is_clean_option i ≡ true
    → is_clean p ≡ true
    → is_clean c ≡ true
    → is_clean (
        obj (
          optional_field "openapi" o
            (optional_field "info" i (field "paths" p (field "components" c end)))))
      ≡ true
unfolding is_clean is_typeless_nullable
whole-is_clean none none p c ho hi hp hc = ground arith
whole-is_clean none (some i) p c ho hi hp hc = ground arith
whole-is_clean (some o) none p c ho hi hp hc = ground arith
whole-is_clean (some o) (some i) p c ho hi hp hc = ground arith

document-is_clean : (m : Merged) → AreClean m → is_clean (document m) ≡ true
document-is_clean m (o, i, p, s, r, q, z) =
    whole-is_clean m.openapi m.info _ _ o i p
      (components-is_clean m.schemas m.responses m.parameters m.security_schemes s r q z)

-- Where the documents are read, a first one and further ones, loadMergedSpec returns a document in
-- which no object has nullable set to true without a type.
pub loaded_document-is_clean :
    (load : String → Outcome Fields) (paths : List String) (base : Fields) (rest : List Fields)
    → load_all load paths ≡ returned (base ∷ rest)
    → (m : Merged) × (load_merged_spec load paths ≡ returned m) × (is_clean (document m) ≡ true)
unfolding prepare
loaded_document-is_clean load paths base rest read = (
  prepare (merged_of base rest),
  load_merged_spec-returned load paths base rest read,
  document-is_clean (prepare (merged_of base rest)) (
      add_proof_path-AreClean (relax_accepted_status (strip_merged (merged_of base rest))) (
        relax_accepted_status-AreClean (strip_merged (merged_of base rest))
          (strip_merged-AreClean (merged_of base rest)))),
)
