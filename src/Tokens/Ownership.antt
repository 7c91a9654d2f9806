-- ===== src/Tokens/Ownership.antt =====
-- The owner index of standin-service/src/tokens.ts agrees with the tokens, after every request.
use text.Mathlib.TextLemmas.{append_cancel_left}
use finlabs_explore.Prelude.{
  ℕ, ◌<◌, ◌≤◌, String, ◌≡◌, refl, ap, sym, ◌∙◌, true, false, Bool-cases, Option, none, some,
  Option-cases, ◌⊎◌, inl, inr, arith, ◌==◌, eq_iff, if◌then◌else◌,
}
use finlabs_explore.Js.Dict.{Dict, get, put, get-put}
use finlabs_explore.Js.Text.{◌+ₛ◌}
use finlabs_explore.Types.Credential.{Vc}
use finlabs_explore.Types.TokenClass.{TokenClass}
use finlabs_explore.Types.Token.{TokenInstance, Tokens, MintInput, TransferInput}
use finlabs_explore.Tokens.{
  new_token, mint_compliant, index_owner, unindex_owner, owner_of, is_owned_by, transfer_token,
}
use finlabs_explore.Tokens.Index.{
  held, owned, owned_in, held-index_owner, held-unindex_owner, is_owned_by→owner_of,
  owner_of-moved_token,
}
use finlabs_explore.Ledger.{record_mint, record_transfer}
use finlabs_explore.World.{World}
use finlabs_explore.World.Env.{Env, IsFaithful}
use finlabs_explore.World.Keeps.{Keeps, IsSupplied}

abbrev pub token_name : Env → ℕ → String
token_name e n = "urn:uuid:token-" +ₛ e.uuid n

-- The index lists a token under an owner exactly where the token names that owner, each token stands
-- under its own id, and each id was made from one of the UUIDs drawn so far.
pub record IsIndexedBy (e : Env) (uuids : ℕ) (tokens : Tokens) : Type 0 where
  pub agrees : (owner id : String) → held tokens.owner_to_ids owner id ≡ owned tokens.by_id owner id
  pub keyed : (id : String) (t : TokenInstance) → get tokens.by_id id ≡ some t → t.id ≡ id
  pub drawn :
      (id : String) (t : TokenInstance)
      → get tokens.by_id id ≡ some t
      → (n : ℕ) × (id ≡ token_name e n) × (n < uuids)

abbrev pub IsIndexed : Env → World → Type 0
IsIndexed e w = IsIndexedBy e w.uuids w.tokens

pub later :
    (e : Env) (n m : ℕ) (tokens : Tokens) → n ≤ m → IsIndexedBy e n tokens → IsIndexedBy e m tokens
later e n m tokens le h = record {
  agrees = h.agrees;
  keyed = h.keyed;
  drawn = λ id t p. let (k, same, below) = h.drawn id t p in (k, same, omega arith);
}

pub IsIndexed-IsSupplied : (e : Env) → IsSupplied (IsIndexed e)
IsIndexed-IsSupplied e = record {
  uuid = λ w h. later e w.uuids _ w.tokens (omega arith) h;
  reading = λ w h. h;
  key = λ w h. h;
}

-- Two writes at one key, as `store_token` makes them.
module _ (m : Dict TokenInstance) (id : String) (t t' : TokenInstance) where
  pub get-put_twice :
      (j : String) → get (put (put m id t) id t') j ≡ (if id == j then some t' else get m j)
  get-put_twice j = rw (get-put, get-put) (ground (arith, eq_iff id j))

-- What is stored after a write at `id`, key by key.
abbrev IsWrite : (before after : Dict TokenInstance) → String → TokenInstance → Type 0
IsWrite before after id t = (j : String) → get after j ≡ (if id == j then some t else get before j)

pub is_owned_by-owner :
    (t : TokenInstance) (a o : String) → owner_of t ≡ some a → is_owned_by t o ≡ (a == o)
unfolding is_owned_by
is_owned_by-owner t a o h = ap (λ r. elim r [ none ↦ false | some owner ↦ owner == o ]) h

-- A token that names its owner is written, and the index changes for that token alone.
module _ (before after : Dict TokenInstance) (id a : String) (t : TokenInstance)
    (write : IsWrite before after id t) (owner : owner_of t ≡ some a) where
  owned-here : (o i : String) → (id == i) ≡ true → owned after o i ≡ (a == o)
  owned-here o i same =
      let now : get after i ≡ some t = write i ∙ rw same refl in
      ap (λ r. owned_in r o) now ∙ is_owned_by-owner t a o owner

  owned-elsewhere : (o i : String) → (id == i) ≡ false → owned after o i ≡ owned before o i
  owned-elsewhere o i other =
      let now : get after i ≡ get before i = write i ∙ rw other refl in ap (λ r. owned_in r o) now

  stored :
      (i : String) (u : TokenInstance)
      → get after i ≡ some u
      → ((i ≡ id) × (u ≡ t)) ⊎ (get before i ≡ some u)
  stored i u p = elim (Bool-cases (id == i)) [
    | inl same ↦
        let now : get after i ≡ some t = write i ∙ rw same refl in
        inl (sym ((eq_iff id i).0 same), ground (arith, now, p))
    | inr other ↦
        let now : get after i ≡ get before i = write i ∙ rw other refl in inr (sym now ∙ p)
  ]

-- A token whose id is made from a UUID that no token has is stored and indexed.
after_mint :
    (e : Env) (f : IsFaithful e) (n m : ℕ) (tokens : Tokens) (a : String) (t t' : TokenInstance)
    → n < m
    → t'.id ≡ token_name e n
    → owner_of t' ≡ some a
    → IsIndexedBy e n tokens
    → IsIndexedBy e m (record {
      by_id = put (put tokens.by_id (token_name e n) t) (token_name e n) t';
      owner_to_ids = index_owner a (token_name e n) tokens.owner_to_ids;
    })
after_mint e f n m tokens a t t' lt name owner h =
    let id = token_name e n in
    let write = get-put_twice tokens.by_id id t t' in
    let after = put (put tokens.by_id id t) id t' in
    let fresh : get tokens.by_id id ≡ none = elim (Option-cases (get tokens.by_id id)) [
      | inl absent ↦ absent
      | inr (u, there) ↦
          let (k, same, below) = h.drawn _ u there in
          let number : n ≡ k =
            f.uuid_injective _ _
              (append_cancel_left "urn:uuid:token-" (e.uuid n) (e.uuid k) same) in
          absurd (omega arith)
    ] in
    record {
      agrees = λ o i. held-index_owner tokens.owner_to_ids a id o i ∙ elim (Bool-cases (id == i)) [
        | inl same ↦
            let none_there : get tokens.by_id i ≡ none =
              ap (get tokens.by_id) (sym ((eq_iff id i).0 same)) ∙ fresh in
            let before : held tokens.owner_to_ids o i ≡ false =
              h.agrees o i ∙ ap (λ r. owned_in r o) none_there in
            rw (same, before, owned-here tokens.by_id after id a t' write owner o i same)
              (ground arith)
        | inr other ↦
            rw
              (
                other,
                owned-elsewhere tokens.by_id after id a t' write owner o i other,
                h.agrees o i,
              )
              (ground arith)
      ];
      keyed = λ i u p. elim (stored tokens.by_id after id a t' write owner i u p) [
        | inl (at, is) ↦ ap (λ x. x.id) is ∙ name ∙ sym at
        | inr old ↦ h.keyed i u old
      ];
      drawn = λ i u p. elim (stored tokens.by_id after id a t' write owner i u p) [
        | inl (at, is) ↦ (n, at, lt)
        | inr old ↦ let (k, same, below) = h.drawn i u old in (k, same, omega arith)
      ];
    }

-- A stored token goes from the one who owns it to another.
after_move :
    (e : Env) (n m : ℕ) (tokens : Tokens) (id from to_did : String) (t t' : TokenInstance)
    → n ≤ m
    → get tokens.by_id id ≡ some t
    → owner_of t ≡ some from
    → t'.id ≡ t.id
    → owner_of t' ≡ some to_did
    → IsIndexedBy e n tokens
    → IsIndexedBy e m (record {
      by_id = put tokens.by_id id t';
      owner_to_ids = index_owner to_did t.id (unindex_owner from t.id tokens.owner_to_ids);
    })
after_move e n m tokens id from to_did t t' le there mine name owner h =
    let write : IsWrite tokens.by_id (put tokens.by_id id t') id t' =
      λ j. get-put tokens.by_id id j t' in
    let after = put tokens.by_id id t' in
    let own : t.id ≡ id = h.keyed id t there in
    record {
      agrees = λ o i. rw own (
          held-index_owner _ to_did id o i
          ∙ rw (held-unindex_owner tokens.owner_to_ids from id o i) (elim (Bool-cases (id == i)) [
            | inl same ↦
                let here : get tokens.by_id i ≡ some t =
                  ap (get tokens.by_id) (sym ((eq_iff id i).0 same)) ∙ there in
                let before : held tokens.owner_to_ids o i ≡ (from == o) =
                  h.agrees o i ∙ ap (λ r. owned_in r o) here ∙ is_owned_by-owner t from o mine in
                rw (same, before, owned-here tokens.by_id after id to_did t' write owner o i same)
                  (ground arith)
            | inr other ↦
                rw
                  (
                    other,
                    owned-elsewhere tokens.by_id after id to_did t' write owner o i other,
                    h.agrees o i,
                  )
                  (ground arith)
          ]));
      keyed = λ i u p. elim (stored tokens.by_id after id to_did t' write owner i u p) [
        | inl (at, is) ↦ ap (λ x. x.id) is ∙ name ∙ own ∙ sym at
        | inr old ↦ h.keyed i u old
      ];
      drawn = λ i u p. elim (stored tokens.by_id after id to_did t' write owner i u p) [
        | inl (at, is) ↦ let (k, same, below) = h.drawn id t there in (k, at ∙ same, omega arith)
        | inr old ↦ let (k, same, below) = h.drawn i u old in (k, same, omega arith)
      ];
    }

module _ (e : Env) (f : IsFaithful e) where
  pub mint_compliant-IsIndexed :
      (input : MintInput) (tc : TokenClass) (claim : Option Vc)
      → Keeps (IsIndexed e) (mint_compliant e input tc claim)
  unfolding mint_compliant record_mint
  mint_compliant-IsIndexed input tc claim = record {
    at = λ w h.
        let token = new_token e input tc claim (e.iso (e.clock w.readings)) (e.uuid w.uuids) in
        elim (Bool-cases (e.validate_token token)) [
          | inl valid ↦ rw valid (
              after_mint e f w.uuids _ w.tokens input.owner_did token _ (omega arith) refl
                (unfold owner_of in refl) h)
          | inr bad ↦ rw bad (later e w.uuids _ w.tokens (omega arith) h)
        ];
  }

pub transfer_token-IsIndexed :
    (e : Env) (input : TransferInput) → Keeps (IsIndexed e) (transfer_token e input)
unfolding transfer_token record_transfer
transfer_token-IsIndexed e input = record {
  at = λ w h. elim (Option-cases (get w.tokens.by_id input.token_id)) [
    | inl absent ↦ rw absent h
    | inr (t, there) ↦ elim (Bool-cases (is_owned_by t input.from_did)) [
      | inl mine ↦
          let owner = is_owned_by→owner_of t input.from_did mine in
          rw (there, mine)
            (after_move e w.uuids _ w.tokens input.token_id input.from_did input.to_did t _
              (omega arith) there owner refl
              (owner_of-moved_token t input.to_did _ _ input.from_did owner) h)
      | inr other ↦ rw (there, other) h
    ]
  ];
}
