-- ===== src/Spec.antt =====
-- standin-service/src/spec.ts: the OpenAPI documents merged into the one that the validator reads.
use mathlib.Core.Option
pub mod Clean
pub mod Merging
pub mod Cleaned
pub mod Relaxed
use finlabs_explore.Prelude.{
  String, Bool, true, false, not, ◌&&◌, ◌||◌, Option, none, some, List, [], ◌∷◌, any, ◌==◌,
  if◌then◌else◌,
}
use finlabs_explore.Json.{
  Json, null, bool, number, text, arr, obj, Items, nil, cons, Fields, end, field, field_of,
  set_field, spread,
}
use finlabs_explore.Tokens.{truthy}
use finlabs_explore.World.{Outcome, returned, thrown}

-- `v === true`
abbrev pub is_true : Option Json → Bool
is_true (some (bool b)) = b
is_true _ = false

abbrev pub is_defined : Option Json → Bool
is_defined none = false
is_defined (some _) = true

-- `obj.nullable === true && obj.type === undefined`
unfoldable pub is_typeless_nullable : Fields → Bool
unfolding field_of
is_typeless_nullable fs = is_true (field_of "nullable" fs) && not (is_defined (field_of "type" fs))

-- `stripTypelessNullable`. The flag says that `nullable` is deleted from this object.
unfoldable mutual
  unfolding is_typeless_nullable

  pub strip : Json → Json
  strip null = null
  strip (bool b) = bool b
  strip (number n) = number n
  strip (text s) = text s
  strip (arr xs) = arr (strip_items xs)
  strip (obj fs) = obj (strip_fields (is_typeless_nullable fs) fs)

  pub strip_items : Items → Items
  strip_items nil = nil
  strip_items (cons x xs) = cons (strip x) (strip_items xs)

  pub strip_fields : Bool → Fields → Fields
  strip_fields drop end = end
  strip_fields drop (field k v fs) =
      if drop && k == "nullable"
      then strip_fields drop fs
      else field k (strip v) (strip_fields drop fs)

-- The names that every object inherits, which `in` finds too.
unfoldable pub is_inherited : String → Bool
is_inherited name =
    any (λ s. s == name)
      ("constructor" ∷ "hasOwnProperty" ∷ "isPrototypeOf" ∷ "propertyIsEnumerable"
        ∷ "toLocaleString" ∷ "toString" ∷ "valueOf" ∷ "__proto__" ∷ "__defineGetter__"
        ∷ "__defineSetter__" ∷ "__lookupGetter__" ∷ "__lookupSetter__" ∷ [])

-- `name in o`
unfoldable pub is_in : String → Fields → Bool
unfolding field_of
is_in name fs = is_inherited name || is_defined (field_of name fs)

-- `v ?? {}`: what is there is an object.
abbrev pub or_empty : Option Json → Fields
or_empty (some (obj g)) = g
or_empty _ = end

-- `doc[k] ?? {}`
unfoldable pub object_at : String → Fields → Fields
unfolding field_of
object_at k fs = or_empty (field_of k fs)

-- The inner loop of the merge: a name that is there already is left alone.
unfoldable pub add_new : Fields → Fields → Fields
unfolding set_field
add_new had end = had
add_new had (field name def more) =
    add_new (if is_in name had then had else set_field name def had) more

-- The merged document; the four sections are its `components`.
pub record Merged : Type 0 where
  pub openapi : Option Json
  pub info : Option Json
  pub paths : Fields
  pub schemas : Fields
  pub responses : Fields
  pub parameters : Fields
  pub security_schemes : Fields

abbrev pub section_of : String → Fields → Fields
section_of section doc = object_at section (object_at "components" doc)

-- One round of the loop over the documents.
unfoldable pub merge_doc : Merged → Fields → Merged
unfolding object_at add_new spread
merge_doc m doc = record m {
  paths = spread m.paths (object_at "paths" doc);
  schemas = add_new m.schemas (section_of "schemas" doc);
  responses = add_new m.responses (section_of "responses" doc);
  parameters = add_new m.parameters (section_of "parameters" doc);
  security_schemes = add_new m.security_schemes (section_of "securitySchemes" doc);
}

unfoldable pub merge_docs : Merged → List Fields → Merged
unfolding merge_doc
merge_docs m [] = m
merge_docs m (doc ∷ docs) = merge_docs (merge_doc m doc) docs

unfoldable pub new_merged : Fields → Merged
unfolding field_of
new_merged base = record {
  openapi = field_of "openapi" base;
  info = field_of "info" base;
  paths = end;
  schemas = end;
  responses = end;
  parameters = end;
  security_schemes = end;
}

-- An object as `stripTypelessNullable` leaves it.
abbrev pub strip_object : Fields → Fields
strip_object fs = strip_fields (is_typeless_nullable fs) fs

-- The components as one object, which is a node like any other.
unfoldable pub strip_merged : Merged → Merged
unfolding strip
strip_merged m = record {
  openapi = Option.map strip m.openapi;
  info = Option.map strip m.info;
  paths = strip_object m.paths;
  schemas = strip_object m.schemas;
  responses = strip_object m.responses;
  parameters = strip_object m.parameters;
  security_schemes = strip_object m.security_schemes;
}

-- `o?.[k]` where it is an object, changed in place.
abbrev pub set_in : String → (Fields → Fields) → Fields → Option Json → Fields
set_in k f fs (some (obj g)) = set_field k (obj (f g)) fs
set_in k f fs _ = fs

unfoldable pub at_object : String → (Fields → Fields) → Fields → Fields
unfolding field_of set_field
at_object k f fs = set_in k f fs (field_of k fs)

-- `xs.includes(s)` for a text
unfoldable pub includes : String → Items → Bool
includes s nil = false
includes s (cons (text t) xs) = t == s || includes s xs
includes s (cons _ xs) = includes s xs

unfoldable pub append_item : Items → Json → Items
append_item nil v = cons v nil
append_item (cons x xs) v = cons x (append_item xs v)

-- `status.enum` with "accepted", if it is an array without it.
abbrev pub accept_value : Fields → Option Json → Fields
accept_value status (some (arr xs)) =
    if includes "accepted" xs
    then status
    else set_field "enum" (arr (append_item xs (text "accepted"))) status
accept_value status _ = status

unfoldable pub accept_in_enum : Fields → Fields
unfolding field_of set_field includes append_item
accept_in_enum status = accept_value status (field_of "enum" status)

unfoldable pub relax_accepted_status : Merged → Merged
unfolding at_object accept_in_enum
relax_accepted_status m = record m {
  schemas =
      at_object "ResponseContext" (at_object "properties" (at_object "status" accept_in_enum))
        m.schemas;
}

json_schema : String → Json
json_schema reference = obj (
    field "application/json" (obj (field "schema" (obj (field "$ref" (text reference) end)) end))
      end)

-- The path item that `addProofPath` binds.
unfoldable pub proof_path_item : Json
unfolding json_schema
proof_path_item = obj (
    field "post"
      (obj (
        field "summary"
          (text
            "Get Merkle inclusion proof for a transaction (binding added in-memory; see spec.ts).")
          (field "requestBody"
            (obj (
              field "required" (bool true) (
                field "content" (json_schema "#/components/schemas/ApiRequest_GetProofRequest")
                  end)))
            (field "responses"
              (obj (
                field "200"
                  (obj (
                    field "description" (text "Merkle proof details") (
                      field "content" (json_schema "#/components/schemas/ApiResponse_ProofDetails")
                        end)))
                  end))
              end))))
      end)

unfoldable pub has_proof_schemas : Fields → Bool
unfolding truthy field_of
has_proof_schemas schemas =
    truthy (field_of "ApiRequest_GetProofRequest" schemas)
    && truthy (field_of "ApiResponse_ProofDetails" schemas)

unfoldable pub add_proof_path : Merged → Merged
unfolding has_proof_schemas set_field proof_path_item
add_proof_path m =
    if has_proof_schemas m.schemas
    then record m { paths = set_field "/v1/transaction/proof" proof_path_item m.paths }
    else m

abbrev optional_field : String → Option Json → Fields → Fields
optional_field k none fs = fs
optional_field k (some v) fs = field k v fs

-- The merged document as the value that is returned.
abbrev pub document : Merged → Json
document m = obj (
    optional_field "openapi" m.openapi (
      optional_field "info" m.info (
        field "paths" (obj m.paths) (
          field "components"
            (obj (
              field "schemas" (obj m.schemas) (
                field "responses" (obj m.responses) (
                  field "parameters" (obj m.parameters)
                    (field "securitySchemes" (obj m.security_schemes) end)))))
            end))))

-- The two repairs and the binding, after the merge.
unfoldable pub prepare : Merged → Merged
unfolding strip_merged relax_accepted_status add_proof_path
prepare m = add_proof_path (relax_accepted_status (strip_merged m))

-- `yaml.load(readFileSync(p, 'utf8'))` is a parameter, which may throw.
abbrev pub and_all : Outcome Fields → Outcome (List Fields) → Outcome (List Fields)
and_all (thrown message) rest = thrown message
and_all (returned doc) (thrown message) = thrown message
and_all (returned doc) (returned docs) = returned (doc ∷ docs)

unfoldable pub load_all : (String → Outcome Fields) → List String → Outcome (List Fields)
load_all load [] = returned []
load_all load (p ∷ ps) = and_all (load p) (load_all load ps)

unfoldable pub merge_loaded : List Fields → Outcome Merged
unfolding merge_docs new_merged prepare
merge_loaded [] = thrown "loadMergedSpec: no specs provided"
merge_loaded (base ∷ rest) = returned (prepare (merge_docs (new_merged base) (base ∷ rest)))

abbrev pub merge_read : Outcome (List Fields) → Outcome Merged
merge_read (thrown message) = thrown message
merge_read (returned docs) = merge_loaded docs

unfoldable pub load_merged_spec : (String → Outcome Fields) → List String → Outcome Merged
unfolding load_all merge_loaded
load_merged_spec load paths = merge_read (load_all load paths)
