-- ===== src/Spec/Relaxed.antt =====
-- The repair of the status and the path for proofs, in what `loadMergedSpec` of standin-service/src/spec.ts
-- returns.
use finlabs_explore.Prelude.{
  String, ◌≡◌, refl, Bool, true, Bool-cases, inl, inr, Option, none, some, List, ◌∷◌, arith,
  eq_refl, if◌then◌else◌,
}
use finlabs_explore.Json.{
  Json, null, bool, number, text, arr, obj, Items, nil, cons, Fields, end, field_of,
}
use finlabs_explore.Spec.{
  strip_object, Merged, strip_merged, or_empty, object_at, set_in, at_object, accept_in_enum,
  accept_value, includes, append_item, relax_accepted_status, add_proof_path, has_proof_schemas,
  proof_path_item, prepare, load_all, load_merged_spec,
}
use finlabs_explore.Spec.Clean.{field_of-set_field}
use finlabs_explore.Spec.Merging.{merged_of, load_merged_spec-returned, prepare-sections}
use finlabs_explore.World.{Outcome, returned}

-- `ResponseContext.properties.status` of the schemas, the empty object where it is not there.
unfoldable pub status_schema : Fields → Fields
unfolding object_at
status_schema schemas =
    object_at "status" (object_at "properties" (object_at "ResponseContext" schemas))

-- An enumeration that is an array has "accepted".
abbrev pub allows_accepted : Option Json → Bool
allows_accepted (some (arr xs)) = includes "accepted" xs
allows_accepted _ = true

or_empty-set_in :
    (k : String) (f : Fields → Fields) (fs : Fields) (o : Option Json)
    → field_of k fs ≡ o
    → f end ≡ end
    → or_empty (field_of k (set_in k f fs o)) ≡ f (or_empty o)
or_empty-set_in k f fs none at h = rw (at, h) refl
or_empty-set_in k f fs (some null) at h = rw (at, h) refl
or_empty-set_in k f fs (some (bool b)) at h = rw (at, h) refl
or_empty-set_in k f fs (some (number n)) at h = rw (at, h) refl
or_empty-set_in k f fs (some (text s)) at h = rw (at, h) refl
or_empty-set_in k f fs (some (arr xs)) at h = rw (at, h) refl
or_empty-set_in k f fs (some (obj g)) at h = rw (field_of-set_field, eq_refl) refl

object_at-at_object :
    (k : String) (f : Fields → Fields) (fs : Fields)
    → f end ≡ end
    → object_at k (at_object k f fs) ≡ f (object_at k fs)
unfolding object_at at_object
object_at-at_object k f fs h = or_empty-set_in k f fs (field_of k fs) refl h

at_object-end : (k : String) (f : Fields → Fields) → at_object k f end ≡ end
unfolding at_object field_of
at_object-end k f = refl

accept_in_enum-end : accept_in_enum end ≡ end
unfolding accept_in_enum field_of
accept_in_enum-end = refl

status_schema-relaxed :
    (fs : Fields)
    → status_schema (
        at_object "ResponseContext" (at_object "properties" (at_object "status" accept_in_enum)) fs)
      ≡ accept_in_enum (status_schema fs)
unfolding status_schema
status_schema-relaxed fs =
    rw
      (
        object_at-at_object "ResponseContext"
            (at_object "properties" (at_object "status" accept_in_enum)) fs (at_object-end _ _),
        object_at-at_object "properties" (at_object "status" accept_in_enum)
            (object_at "ResponseContext" fs) (at_object-end _ _),
        object_at-at_object "status" accept_in_enum
            (object_at "properties" (object_at "ResponseContext" fs)) accept_in_enum-end,
      )
      refl

includes-append_item : (s : String) (xs : Items) → includes s (append_item xs (text s)) ≡ true
unfolding includes append_item
includes-append_item s nil = rw eq_refl refl
includes-append_item s (cons null xs) = includes-append_item s xs
includes-append_item s (cons (bool b) xs) = includes-append_item s xs
includes-append_item s (cons (number n) xs) = includes-append_item s xs
includes-append_item s (cons (arr ys) xs) = includes-append_item s xs
includes-append_item s (cons (obj fs) xs) = includes-append_item s xs
includes-append_item s (cons (text t) xs) = ground (arith, includes-append_item s xs)

accept_value_lem :
    (fs : Fields) (o : Option Json)
    → field_of "enum" fs ≡ o
    → allows_accepted (field_of "enum" (accept_value fs o)) ≡ true
accept_value_lem fs none at = rw at refl
accept_value_lem fs (some null) at = rw at refl
accept_value_lem fs (some (bool b)) at = rw at refl
accept_value_lem fs (some (number n)) at = rw at refl
accept_value_lem fs (some (text s)) at = rw at refl
accept_value_lem fs (some (obj g)) at = rw at refl
accept_value_lem fs (some (arr xs)) at = elim (Bool-cases (includes "accepted" xs)) [
  | inl there ↦ rw (there, at) there
  | inr new ↦ rw (new, field_of-set_field) (includes-append_item "accepted" xs)
]

accept_in_enum_lem : (fs : Fields) → allows_accepted (field_of "enum" (accept_in_enum fs)) ≡ true
unfolding accept_in_enum
accept_in_enum_lem fs = accept_value_lem fs (field_of "enum" fs) refl

proof_path_bound :
    (m : Merged)
    → field_of "/v1/transaction/proof" (prepare m).paths ≡ (
        if has_proof_schemas (prepare m).schemas
        then some proof_path_item
        else field_of "/v1/transaction/proof" (strip_object m.paths))
unfolding prepare add_proof_path relax_accepted_status strip_merged
proof_path_bound m =
    elim (Bool-cases (has_proof_schemas (relax_accepted_status (strip_merged m)).schemas)) [
      | inl both ↦ rw (both, both, field_of-set_field) refl
      | inr lacking ↦ rw (lacking, lacking) refl
    ]

-- Where the documents are read, a first one and further ones, loadMergedSpec returns a document in
-- which the enumeration of ResponseContext.properties.status has accepted, if it is an array, and the
-- path /v1/transaction/proof is the item that addProofPath binds if the document has both schemas of
-- the proof, and otherwise what the documents made of it.
pub loaded_repairs :
    (load : String → Outcome Fields) (paths : List String) (base : Fields) (rest : List Fields)
    → load_all load paths ≡ returned (base ∷ rest)
    → (m : Merged) × (load_merged_spec load paths ≡ returned m)
      × (allows_accepted (field_of "enum" (status_schema m.schemas)) ≡ true)
      × (field_of "/v1/transaction/proof" m.paths ≡ (
          if has_proof_schemas m.schemas
          then some proof_path_item
          else field_of "/v1/transaction/proof" (strip_object (merged_of base rest).paths)))
unfolding relax_accepted_status
loaded_repairs load paths base rest read =
    let (s, r, p, q) = prepare-sections (merged_of base rest) in
    (
      prepare (merged_of base rest),
      load_merged_spec-returned load paths base rest read,
      rw (s, status_schema-relaxed)
          (accept_in_enum_lem (status_schema (strip_merged (merged_of base rest)).schemas)),
      proof_path_bound (merged_of base rest),
    )
