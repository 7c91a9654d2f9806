-- ===== src/App/Keys.antt =====
-- In every state that the service can reach, an account of standin-service/src/store.ts is stored with the
-- public key that belongs to its private key.
use finlabs_explore.Prelude.{
  String, ◌≡◌, ◌⊎◌, refl, subst, sym, none, some, Option, Option-cases, Bool-cases, inl, inr, ◌==◌,
}
use mathlib.Core.Option
use finlabs_explore.Js.Dict.{Dict, get, put, get-put, empty}
use finlabs_explore.Crypto.{did_key_from_public_key, generate_keypair}
use finlabs_explore.Types.Account.{Account, NewAccount}
use finlabs_explore.Types.Credential.{Vc}
use finlabs_explore.Types.TokenClass.{TokenClass}
use finlabs_explore.Types.Token.{MintInput, TransferInput}
use finlabs_explore.Accounts.{create_account, get_by_key_id}
use finlabs_explore.Credentials.Keeping.{issue_credential-Keeps, revoke_credential-Keeps}
use finlabs_explore.Ledger.{record_mint, record_transfer}
use finlabs_explore.TokenClasses.{register_token_class}
use finlabs_explore.Tokens.{mint_compliant, new_token, move_token, transfer_token}
use finlabs_explore.Tokens.Moving.{transfer_token-Keeps}
use finlabs_explore.Tokens.Minting.{mint_token-Keeps}
use finlabs_explore.App.{Validator, boot}
use finlabs_explore.App.Invariants.{IsInvariant}
use finlabs_explore.App.Induction.{Reachable, Reachable-induction}
use finlabs_explore.World.{World}
use finlabs_explore.World.Keeps.{Keeps, IsSupplied}
use finlabs_explore.World.Env.{Env}

stored_account :
    (m : Dict Account) (k j : String) (c a : Account)
    → get (put m k c) j ≡ some a
    → (a ≡ c) ⊎ (get m j ≡ some a)
stored_account m k j c a there = elim (Bool-cases (k == j)) [
  | inl same ↦ inl (sym (Option.some-injective _ _ (rw (get-put, same) at there)))
  | inr other ↦ inr (rw (get-put, other) at there)
]

module _ (e : Env) where
  -- The multibase text is that of the private key's own public key.
  abbrev pub IsMatched : Account → Type 0
  IsMatched a =
      a.public_key_multibase
      ≡ (did_key_from_public_key e.packages
          (e.packages.public_key_of a.private_key)).public_key_multibase

  abbrev AreMatched : World → Type 0
  AreMatched w =
      (address : String) (a : Account) → get w.accounts.by_address address ≡ some a → IsMatched a

  AreMatched-IsSupplied : IsSupplied AreMatched
  AreMatched-IsSupplied = record { uuid = λ w h. h; reading = λ w h. h; key = λ w h. h }

  create_account-AreMatched : (input : NewAccount) → Keeps AreMatched (create_account e input)
  unfolding create_account generate_keypair
  create_account-AreMatched input = record {
    at = λ w h address a there.
        elim (stored_account w.accounts.by_address input.address address _ a there) [
          | inl same ↦ subst IsMatched (sym same) refl
          | inr before ↦ h address a before
        ];
  }

  mint_compliant-AreMatched :
      (input : MintInput) (tc : TokenClass) (claim : Option Vc)
      → Keeps AreMatched (mint_compliant e input tc claim)
  unfolding mint_compliant record_mint
  mint_compliant-AreMatched input tc claim = record {
    at = λ w h.
        let token = new_token e input tc claim (e.iso (e.clock w.readings)) (e.uuid w.uuids) in
        elim (Bool-cases (e.validate_token token)) [ inl valid ↦ rw valid h | inr bad ↦ rw bad h ];
  }

  transfer_token-AreMatched : (input : TransferInput) → Keeps AreMatched (transfer_token e input)
  unfolding move_token record_transfer
  transfer_token-AreMatched input = transfer_token-Keeps e input λ t. record { at = λ w h. h }

  AreMatched-IsInvariant : IsInvariant e AreMatched
  unfolding register_token_class
  AreMatched-IsInvariant = record {
    supplied = AreMatched-IsSupplied;
    creates = create_account-AreMatched;
    issues = issue_credential-Keeps e AreMatched-IsSupplied (λ w cs h. h);
    revokes = revoke_credential-Keeps e AreMatched-IsSupplied (λ w cs h. h);
    registers = λ input. record { at = λ w h. h };
    mints =
        λ input. mint_token-Keeps e AreMatched-IsSupplied input (mint_compliant-AreMatched input);
    transfers = transfer_token-AreMatched;
  }

  boot-AreMatched : AreMatched (boot e)
  unfolding boot get empty
  boot-AreMatched address a there = absurd (cc there)

  pub Reachable-AreMatched :
      (v : Validator) (w : World) (address : String) (a : Account)
      → Reachable e v w
      → get w.accounts.by_address address ≡ some a
      → IsMatched a
  Reachable-AreMatched v w address a r there =
      Reachable-induction e v AreMatched-IsInvariant boot-AreMatched r address a there

  pub Reachable-IsMatched :
      (v : Validator) (w : World) (key_id : String) (a : Account)
      → Reachable e v w
      → get_by_key_id w.accounts key_id ≡ some a
      → IsMatched a
  unfolding get_by_key_id Option.bind
  Reachable-IsMatched v w key_id a r there = elim (Option-cases (get w.accounts.by_key_id key_id)) [
    | inl unknown ↦
        let nothing_there : none ≡ some a = rw unknown at there in absurd (cc nothing_there)
    | inr (address, known) ↦ elim (Bool-cases (address == "")) [
      | inl empty ↦
          let nothing_there : none ≡ some a = rw (known, empty) at there in
          absurd (cc nothing_there)
      | inr filled ↦ Reachable-AreMatched v w address a r (rw (known, filled) at there)
    ]
  ]
