-- ===== src/Tests/Minting.antt =====
-- The theorems on tokens, at concrete inputs.
use mathlib.Core.List.{Memᴰ, head?}
use finlabs_explore.Prelude.{
  ℕ, String, ◌≡◌, ◌↔◌, ◌⊎◌, refl, ap, ◌∙◌, true, false, none, some, [], ◌∷◌, ltb, ◌+◌,
}
use finlabs_explore.Js.Dict.{get, put, values}
use finlabs_explore.Js.Dict
use finlabs_explore.Crypto.{sha256_hex, text_encode, sign_hash_hex}
use finlabs_explore.Types.Credential.{CredentialToken}
use finlabs_explore.Types.Token.{
  TokenInstance, minted, refused, compliance_check_failed, TransferInput, TransferCode, rejected,
  transferred, token_not_found,
}
use finlabs_explore.Credentials.{
  year_ms, issue_credential, all_pass, credentials_for_holder, unsigned_vc, issued_credential,
  signed_vc,
}
use finlabs_explore.Credentials.Signing.{vc_signing_hash, issuer_did, issuer_private_key}
use finlabs_explore.Json
use finlabs_explore.Json.{canonical}
use finlabs_explore.Json.Order.{key_le}
use finlabs_explore.Credentials.Holding.{
  passes_at, first_passing, credential_found, valid_credential_for-credential_found,
}
use finlabs_explore.Credentials.Verifying.{issue_credential-checks}
use finlabs_explore.Ledger.{record_mint}
use finlabs_explore.Tokens.{
  mint_token, mint_in_class, mint_compliant, no_credential_message, transfer_token,
}
use finlabs_explore.Tokens.Hook.{Shows, Licenses, mint_token_gated, mint_token_refuses}
use finlabs_explore.App.{boot}
use finlabs_explore.World.{World, returned}
use finlabs_explore.Tokens.Index.{owned}
use finlabs_explore.Tokens.Transferring.{IsTransferred, transfer_token-IsTransferred}
use finlabs_explore.Tests.Toy.{toy, toy-IsFaithful}
use finlabs_explore.Tests.Cases.{
  kyc, kyc_credential, kyc_world, kyc_issued, deed, deed_class, deed_run, deed_token, deed_gated,
}

kyc_listed : credentials_for_holder kyc_world.credentials "did:a" ≡ kyc_credential ∷ []
unfolding credentials_for_holder signed_vc issuer_private_key issued_credential values
    issue_credential boot get put Dict.empty sign_hash_hex vc_signing_hash sha256_hex text_encode
    canonical Json.join Json.entries Json.sort_keys key_le Json.texts unsigned_vc issuer_did
kyc_listed = refl

year_ahead :
    ltb (toy.clock kyc_world.readings) (toy.clock ((boot toy).readings + 1) + year_ms) ≡ true
unfolding issue_credential boot get put Dict.empty sign_hash_hex vc_signing_hash sha256_hex
    text_encode canonical Json.join Json.entries Json.sort_keys key_le Json.texts unsigned_vc
    issuer_did
year_ahead = refl

kyc_passes : passes_at toy kyc_world.credentials kyc_world.readings kyc_credential ≡ true
unfolding boot
kyc_passes =
    ap all_pass (
      issue_credential-checks toy toy-IsFaithful kyc (boot toy) kyc_world kyc_credential
        (toy.clock kyc_world.readings) kyc_issued)
    ∙ year_ahead

kyc_found : (credential_found toy kyc_world "did:a").0 ≡ some kyc_credential
unfolding first_passing
kyc_found = rw kyc_listed (rw kyc_passes refl)

deed_known : get kyc_world.classes "PROP-DEED" ≡ some deed_class
unfolding issue_credential boot get put Dict.empty sign_hash_hex vc_signing_hash sha256_hex
    text_encode canonical Json.join Json.entries Json.sort_keys key_le Json.texts unsigned_vc
    issuer_did
deed_known = refl

deed_step : mint_token toy deed kyc_world ≡ deed_run
unfolding mint_token mint_in_class
deed_step = rw (deed_known, deed_gated, valid_credential_for-credential_found, kyc_found) refl

deed_made : deed_run ≡ (returned (minted deed_token), deed_run.1)
unfolding mint_compliant record_mint
deed_made = refl

mint_token_gated_example :
    (c : CredentialToken) × Licenses toy kyc_world "did:a" c
    × Shows deed deed_class (head? c.claims) deed_token
mint_token_gated_example =
    mint_token_gated toy deed deed_class kyc_world deed_run.1 deed_token deed_known deed_gated
      (deed_step ∙ deed_made)

boot_known : get (boot toy).classes "PROP-DEED" ≡ some deed_class
unfolding boot get put Dict.empty
boot_known = refl

nothing_held :
    (n : ℕ) (c : CredentialToken)
    → Memᴰ c (credentials_for_holder (boot toy).credentials "did:a")
    → passes_at toy (boot toy).credentials n c ≡ false
unfolding boot credentials_for_holder values Dict.empty
nothing_held n c m = elim m [ ]

mint_token_refuses_example :
    (k : ℕ) × (mint_token toy deed (boot toy) ≡ (
      returned (refused compliance_check_failed (no_credential_message deed_class "did:a")),
      record (boot toy) { readings = k },
    ))
mint_token_refuses_example =
    mint_token_refuses toy deed deed_class (boot toy) boot_known deed_gated nothing_held

abbrev gift : TransferInput
gift = record { token_id = deed_token.id; from_did = "did:a"; to_did = "did:b" }

transfer_token-IsTransferred_example :
    ((owned deed_run.1.tokens.by_id "did:a" deed_token.id ≡ false)
      × (code : TransferCode) × (message : String) × (transfer_token toy gift deed_run.1
          ≡ (returned (rejected code message), deed_run.1))
      × ((code ≡ token_not_found) ↔ (get deed_run.1.tokens.by_id deed_token.id ≡ none)))
    ⊎ ((tx_id : String) × (t : TokenInstance) × (w' : World) × (transfer_token toy gift deed_run.1
          ≡ (returned (transferred tx_id t), w'))
        × IsTransferred gift deed_run.1 w' tx_id t)
transfer_token-IsTransferred_example = transfer_token-IsTransferred toy gift deed_run.1
