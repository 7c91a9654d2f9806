-- ===== src/Tests/Proofs.antt =====
-- The theorems on inclusion proofs and on keys, at concrete inputs.
use mathlib.Core.Option
use finlabs_explore.Prelude.{String, ◌≡◌, ◌⊎◌, refl, true, false, none, some, List, [], ◌∷◌}
use finlabs_explore.Js.Dict.{get, put, values}
use finlabs_explore.Js.Dict
use finlabs_explore.Crypto.{
  did_key_from_public_key, public_key_from_multibase, sha256_hex, text_encode, sign_hash_hex,
  verify_hash_hex,
}
use finlabs_explore.Crypto.RoundTrip.{
  public_key_from_multibase-did_key_from_public_key, verify_hash_hex-sign_hash_hex,
}
use finlabs_explore.Types.Transaction.{Ledger, ProofDetails}
use finlabs_explore.Ledger.{get_proof, find_leaf, proof_details}
use finlabs_explore.Ledger.Merkle.{
  merkle_levels, levels_above, merkle_root, next_level, left, right, ProofPathNode,
}
use finlabs_explore.Ledger.Merkle.Binding.{CollisionOn, fold_merkle_proof_binding}
use finlabs_explore.Ledger.Merkle.Doubling.{merkle_root_doubling}
use finlabs_explore.Ledger.Proofs.{
  IsInclusionProof, is_recorded, get_proof-IsInclusionProof, get_proof_total,
}
use finlabs_explore.App.{boot}
use finlabs_explore.App.Revocation.{serve_all}
use finlabs_explore.App.Recording.{serve_all-IsInclusionProof}
use finlabs_explore.World.{World}
use finlabs_explore.Tests.Cases.{lenient, opening}
use finlabs_explore.Tests.Toy.{packages, packages-IsStandard, encode, toy}

-- Three transactions.
abbrev three : Ledger
three = record {
  tx_logs = Dict.empty;
  token_tx_by_id = Dict.empty;
  history_by_token = Dict.empty;
  leaves =
      record { tx_id = "a"; leaf_hash = "1" }
      ∷ record { tx_id = "b"; leaf_hash = "11" }
      ∷ record { tx_id = "c"; leaf_hash = "111" }
      ∷ [];
}

abbrev lowest : List String
lowest = "1" ∷ "11" ∷ "111" ∷ []

abbrev levels : List (List String)
levels = lowest ∷ next_level packages lowest ∷ next_level packages (next_level packages lowest) ∷ []

abbrev proof_of_c : ProofDetails
proof_of_c = proof_details "c" (2, record { tx_id = "c"; leaf_hash = "111" }) levels

get_proof_of_c : get_proof toy three "c" ≡ some proof_of_c
unfolding get_proof merkle_levels levels_above next_level find_leaf Option.bind
get_proof_of_c = refl

get_proof-IsInclusionProof_example : IsInclusionProof toy three "c" proof_of_c
get_proof-IsInclusionProof_example =
    get_proof-IsInclusionProof toy three "c" proof_of_c get_proof_of_c

get_proof_total_example :
    ((is_recorded three "c" ≡ true)
      × (d : ProofDetails) × (get_proof toy three "c" ≡ some d)
      × IsInclusionProof toy three "c" d)
    ⊎ ((is_recorded three "c" ≡ false) × (get_proof toy three "c" ≡ none))
get_proof_total_example = get_proof_total toy three "c"

abbrev steps : List ProofPathNode
steps = record { hash = "x"; direction = left } ∷ record { hash = "y"; direction = right } ∷ []

fold_merkle_proof_binding_example : (◌≡◌ {A = String} "h" "h") ⊎ CollisionOn packages steps "h" "h"
fold_merkle_proof_binding_example = fold_merkle_proof_binding packages steps "h" "h" refl

merkle_root_doubling_example :
    Option.map merkle_root (merkle_levels packages ("a" ∷ "b" ∷ "c" ∷ "c" ∷ []))
    ≡ Option.map merkle_root (merkle_levels packages ("a" ∷ "b" ∷ "c" ∷ []))
merkle_root_doubling_example = merkle_root_doubling packages "a" "b" [] "c" 0 refl

multibase_example :
    public_key_from_multibase packages
      (did_key_from_public_key packages (5 ∷ 6 ∷ [])).public_key_multibase
    ≡ some (5 ∷ 6 ∷ [])
multibase_example =
    public_key_from_multibase-did_key_from_public_key packages packages-IsStandard (5 ∷ 6 ∷ [])

signed_m : sign_hash_hex packages (3 ∷ []) (sha256_hex packages "m") ≡ some (encode (1 ∷ 3 ∷ []))
unfolding sign_hash_hex sha256_hex text_encode
signed_m = refl

verify_hash_hex_example :
    verify_hash_hex packages (3 ∷ []) (sha256_hex packages "m") (encode (1 ∷ 3 ∷ [])) ≡ true
verify_hash_hex_example =
    verify_hash_hex-sign_hash_hex packages packages-IsStandard (3 ∷ []) "m" (encode (1 ∷ 3 ∷ []))
      signed_m

abbrev three_world : World
three_world = record (boot toy) { ledger = three }

serve_all-IsInclusionProof_example :
    (d : ProofDetails) × (get_proof toy
        (serve_all toy lenient (opening ∷ []) three_world).ledger
        "c"
      ≡ some d)
    × IsInclusionProof toy (serve_all toy lenient (opening ∷ []) three_world).ledger "c" d
serve_all-IsInclusionProof_example =
    serve_all-IsInclusionProof toy lenient (opening ∷ []) three_world "c" refl
