-- ===== src/Credentials/Signing.antt =====
-- standin-service/src/credentials.ts: the issuer's key, what it signs, and the check of a signature.
use mathlib.Core.Option
use finlabs_explore.Prelude.{String, Bool, false, Option, none, some, or_default}
use finlabs_explore.Js.Text.{◌+ₛ◌, before, remove_first}
use finlabs_explore.Json.{Json, Fields, text, arr, obj, field, end, texts, set_field, canonical}
use finlabs_explore.Crypto.Packages.{Bytes}
use finlabs_explore.Crypto.{
  generate_keypair, did_key_from_public_key, public_key_from_multibase, sha256_hex, verify_hash_hex,
}
use finlabs_explore.Types.Credential.{Vc, VcProof}
use finlabs_explore.World.Env.{Env}

-- The module's own key pair: the first one that the process draws.
unfoldable pub issuer_private_key : Env → Bytes
unfolding generate_keypair
issuer_private_key e = (generate_keypair e.packages (e.private_key 0)).private_key

unfoldable pub issuer_did : Env → String
unfolding generate_keypair did_key_from_public_key
issuer_did e =
    (did_key_from_public_key e.packages
      (generate_keypair e.packages (e.private_key 0)).public_key).did

unfoldable pub issuer_verification_method : Env → String
unfolding issuer_did
issuer_verification_method e = issuer_did e +ₛ "#key-1"

-- A `Vc` as the object that JSON sees, without and with its proof.
unfoldable pub vc_without_proof : Vc → Fields
vc_without_proof vc = field "id" (text vc.id) (
    field "@context" (arr (texts vc.contexts)) (
      field "type" (arr (texts vc.kinds)) (
        field "issuer" (text vc.issuer) (
          field "issuanceDate" (text vc.issuance_date) (
            field "validFrom" (text vc.valid_from) (
              field "validUntil" (text vc.valid_until) (
                field "credentialSubject" (obj vc.credential_subject) (
                  field "credentialStatus" (obj vc.credential_status)
                    (field "credentialSchema" (obj vc.credential_schema) end)))))))))

proof_json : VcProof → Json
proof_json proof = obj (
    field "type" (text proof.kind) (
      field "created" (text proof.created) (
        field "verificationMethod" (text proof.verification_method) (
          field "proofPurpose" (text proof.proof_purpose)
            (field "proofValue" (text proof.proof_value) end)))))

unfoldable pub vc_json : Vc → Json
unfolding vc_without_proof proof_json set_field
vc_json vc = elim vc.proof [
  | none ↦ obj (vc_without_proof vc)
  | some proof ↦ obj (set_field "proof" (proof_json proof) (vc_without_proof vc))
]

unfoldable pub vc_signing_hash : Env → Vc → String
unfolding vc_without_proof
vc_signing_hash e vc = sha256_hex e.packages (canonical (obj (vc_without_proof vc)))

-- `none` where the decoder throws
unfoldable pub issuer_public_key_for : Env → String → Option Bytes
unfolding before remove_first
issuer_public_key_for e verification_method =
    public_key_from_multibase e.packages (remove_first "did:key:" (before b'#' verification_method))

unfoldable pub verify_vc_signature : Env → Vc → Bool
unfolding issuer_public_key_for vc_signing_hash
verify_vc_signature e vc = elim vc.proof [
  | none ↦ false
  | some proof ↦
      or_default
        (Option.map
          (λ pub_key. verify_hash_hex e.packages pub_key (vc_signing_hash e vc) proof.proof_value)
          (issuer_public_key_for e proof.verification_method))
        false
]
