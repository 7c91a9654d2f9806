-- ===== src/Wallet/Crypto.antt =====
-- app/src/lib/crypto.ts, what the browser computes for itself. `sha256Hex`, `publicKeyFromMultibase`,
-- `verifyHashHex` and `canonicalJson` stand there a second time, word for word as in the service: see
-- Crypto.antt and Json.antt.
use mathlib.Core.Option
use finlabs_explore.Prelude.{
  String, Bool, false, ◌||◌, none, some, List, [], ◌∷◌, or_default, ◌==◌, if◌then◌else◌,
}
use finlabs_explore.Js.Text.{◌+ₛ◌, before, strip_prefix}
use finlabs_explore.Json.{obj, canonical}
use finlabs_explore.Crypto.Packages.{Primitives}
use finlabs_explore.Crypto.{sha256_hex, public_key_from_multibase, verify_hash_hex}
use finlabs_explore.Credentials.Signing.{vc_without_proof}
use finlabs_explore.Types.Credential.{Vc}
use finlabs_explore.Ledger.Merkle.{left, right, ProofPathNode}

-- `did.startsWith('did:key:') ? did.slice(8) : did`
unfoldable pub multibase_from_did : String → String
unfolding strip_prefix
multibase_from_did did = or_default (strip_prefix "did:key:" did) did

module _ (p : Primitives) where
  unfoldable pub verify_embedded_credential : Vc → Bool
  unfolding multibase_from_did before
  verify_embedded_credential claim = elim claim.proof [
    | none ↦ false
    | some proof ↦
        if proof.verification_method == "" || proof.proof_value == ""
        then false
        else or_default
            (Option.map
              (λ key.
                verify_hash_hex p key (sha256_hex p (canonical (obj (vc_without_proof claim))))
                  proof.proof_value)
              (public_key_from_multibase p
                (multibase_from_did (before b'#' proof.verification_method))))
            false
  ]

  -- One turn of the loop of `foldMerkleProof`, and the loop.
  unfoldable pub fold_step : String → ProofPathNode → String
  fold_step h node = elim node.direction [
    | left ↦ sha256_hex p (node.hash +ₛ h)
    | right ↦ sha256_hex p (h +ₛ node.hash)
  ]

  unfoldable pub fold_merkle_proof : String → List ProofPathNode → String
  unfolding fold_step
  fold_merkle_proof h [] = h
  fold_merkle_proof h (node ∷ path) = fold_merkle_proof (fold_step h node) path
