-- ===== src/Tests/Merging.antt =====
-- The theorems on the merged specification, at two small documents.
use finlabs_explore.Prelude.{
  String, ◌≡◌, refl, true, Option, some, List, [], ◌∷◌, ◌==◌, if◌then◌else◌,
}
use finlabs_explore.Json.{Json, bool, text, arr, obj, nil, cons, Fields, end, field, field_of}
use finlabs_explore.Spec.{
  Merged, document, load_all, load_merged_spec, has_proof_schemas, proof_path_item, strip_object,
}
use finlabs_explore.Spec.Clean.{is_clean}
use finlabs_explore.Spec.Merging.{loaded, loaded_sections, merged_of}
use finlabs_explore.Spec.Cleaned.{loaded_document-is_clean}
use finlabs_explore.Spec.Relaxed.{status_schema, allows_accepted, loaded_repairs}
use finlabs_explore.World.{Outcome, returned}

abbrev reference : String → Json
reference name = obj (field "$ref" (text name) (field "nullable" (bool true) end))

abbrev status : Json
status = obj (
    field "properties"
      (obj (
        field "status"
          (obj (
            field "type" (text "string")
              (field "enum" (arr (cons (text "successful") (cons (text "failed") nil))) end)))
          end))
      end)

abbrev with_schemas : Fields → Fields
with_schemas schemas = field "components" (obj (field "schemas" (obj schemas) end)) end

abbrev accounts : Fields
accounts = with_schemas (field "Context" (reference "A") (field "ResponseContext" status end))

abbrev tokens : Fields
tokens = with_schemas (
    field "Context" (reference "B") (
      field "ApiRequest_GetProofRequest" (reference "C")
        (field "ApiResponse_ProofDetails" (reference "D") end)))

abbrev load : String → Outcome Fields
load p = if p == "accounts" then returned accounts else returned tokens

abbrev two_files : List String
two_files = "accounts" ∷ "token" ∷ []

abbrev in_section : String → String → Option Json
in_section section name = loaded section name (accounts ∷ tokens ∷ [])

two_files_loaded : load_all load two_files ≡ returned (accounts ∷ tokens ∷ [])
unfolding load_all
two_files_loaded = refl

loaded_sections_example :
    (m : Merged) × (load_merged_spec load two_files ≡ returned m)
    × (field_of "Context" m.schemas ≡ in_section "schemas" "Context")
    × (field_of "Context" m.responses ≡ in_section "responses" "Context")
    × (field_of "Context" m.parameters ≡ in_section "parameters" "Context")
    × (field_of "Context" m.security_schemes ≡ in_section "securitySchemes" "Context")
loaded_sections_example =
    loaded_sections load two_files accounts (tokens ∷ []) "Context" two_files_loaded refl refl

loaded_document-is_clean_example :
    (m : Merged) × (load_merged_spec load two_files ≡ returned m) × (is_clean (document m) ≡ true)
loaded_document-is_clean_example =
    loaded_document-is_clean load two_files accounts (tokens ∷ []) two_files_loaded

loaded_repairs_example :
    (m : Merged) × (load_merged_spec load two_files ≡ returned m)
    × (allows_accepted (field_of "enum" (status_schema m.schemas)) ≡ true)
    × (field_of "/v1/transaction/proof" m.paths ≡ (
        if has_proof_schemas m.schemas
        then some proof_path_item
        else field_of "/v1/transaction/proof"
            (strip_object (merged_of accounts (tokens ∷ [])).paths)))
loaded_repairs_example = loaded_repairs load two_files accounts (tokens ∷ []) two_files_loaded
