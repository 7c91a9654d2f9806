-- ===== src/Wallet/Agreement.antt =====
-- The check of an embedded credential in app/src/lib/crypto.ts beside `verifyVcSignature` of
-- standin-service/src/credentials.ts.
use mathlib.Core.Option
use text.Mathlib.TextLemmas.{cons-append}
use finlabs_explore.Prelude.{
  String, ◌≡◌, ◌≢◌, refl, ap, sym, ◌∙◌, false, Bool-cases, inl, inr, some, ◌==◌, eq_iff, or_default,
}
use finlabs_explore.Js.Text.{
  ◌+ₛ◌, before, before-append, lacks, strip_prefix, strip_prefix-append, remove_first,
  remove_first-append,
}
use finlabs_explore.Crypto.{public_key_from_multibase, verify_hash_hex}
use finlabs_explore.Types.Credential.{Vc, VcProof}
use finlabs_explore.Credentials.Signing.{
  issuer_public_key_for, vc_signing_hash, verify_vc_signature,
}
use finlabs_explore.Wallet.Crypto.{multibase_from_did, verify_embedded_credential}
use finlabs_explore.World.Env.{Env}

did_prefix : (rest : String) → before b'#' ("did:key:" +ₛ rest) ≡ "did:key:" +ₛ before b'#' rest
unfolding lacks
did_prefix rest = before-append b'#' "did:key:" rest refl

-- Both find the same text for the key in a did:key.
multibase_from_did-did :
    (rest : String) → multibase_from_did (before b'#' ("did:key:" +ₛ rest)) ≡ before b'#' rest
unfolding multibase_from_did
multibase_from_did-did rest =
    ap (λ s. or_default (strip_prefix "did:key:" s) s) (did_prefix rest)
    ∙ ap (λ o. or_default o ("did:key:" +ₛ before b'#' rest))
        (strip_prefix-append "did:key:" (before b'#' rest))

remove_first-did :
    (rest : String) → remove_first "did:key:" (before b'#' ("did:key:" +ₛ rest)) ≡ before b'#' rest
remove_first-did rest =
    ap (remove_first "did:key:") (did_prefix rest)
    ∙ remove_first-append "d" "id:key:" (before b'#' rest)

is_empty-false : (s : String) → s ≢ "" → (s == "") ≡ false
is_empty-false s h = elim (Bool-cases (s == "")) [
  | inl empty ↦ absurd (h ((eq_iff s "").0 empty))
  | inr there ↦ there
]

-- Both decode the same key.
issuer_public_key_for-did :
    (e : Env) (rest : String)
    → public_key_from_multibase e.packages (multibase_from_did (before b'#' ("did:key:" +ₛ rest)))
      ≡ issuer_public_key_for e ("did:key:" +ₛ rest)
unfolding issuer_public_key_for
issuer_public_key_for-did e rest =
    ap (public_key_from_multibase e.packages)
      (multibase_from_did-did rest ∙ sym (remove_first-did rest))

did_not_empty : (rest : String) → (("did:key:" +ₛ rest) == "") ≡ false
did_not_empty rest =
    is_empty-false ("did:key:" +ₛ rest) (λ h. cc (sym (cons-append "d" "id:key:" rest) ∙ h))

-- On a claim whose proof has a value and names a did:key as its verification method, the browser's check
-- of an embedded credential and the service's check of its signature agree.
pub verify_embedded_credential-verify_vc_signature :
    (e : Env) (vc : Vc) (proof : VcProof) (rest : String)
    → vc.proof ≡ some proof
    → proof.verification_method ≡ "did:key:" +ₛ rest
    → proof.proof_value ≢ ""
    → verify_embedded_credential e.packages vc ≡ verify_vc_signature e vc
unfolding verify_embedded_credential verify_vc_signature vc_signing_hash
verify_embedded_credential-verify_vc_signature e vc proof rest signed method value =
    rw (signed, method, did_not_empty rest, is_empty-false proof.proof_value value)
      (ap
        (λ o.
          or_default
            (Option.map
              (λ key. verify_hash_hex e.packages key (vc_signing_hash e vc) proof.proof_value) o)
            false)
        (issuer_public_key_for-did e rest))
