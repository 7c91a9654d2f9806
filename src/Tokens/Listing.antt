-- ===== src/Tokens/Listing.antt =====
-- What `tokensForOwner` of standin-service/src/tokens.ts lists.
use mathlib.Core.List.{Memᴰ}
use finlabs_explore.Prelude.{
  String, ◌≡◌, refl, ap, sym, ◌∙◌, subst, true, false, Bool-cases, Option-cases, ◌↔◌, inl, inr,
  some, List, [], ◌∷◌, map, present, arith, ◌==◌, eq_iff,
}
use finlabs_explore.Js.Dict.{Dict, get}
use finlabs_explore.Js.StrSet.{has, has_item, empty}
use finlabs_explore.Types.Token.{TokenInstance, Tokens}
use finlabs_explore.Tokens.{owner_of, is_owned_by, tokens_for_owner}
use finlabs_explore.Tokens.Index.{held, owned_in, is_owned_by→owner_of}
use finlabs_explore.Tokens.Ownership.{IsIndexedBy, is_owned_by-owner}
use finlabs_explore.World.Env.{Env}

module _ (m : Dict TokenInstance) (t : TokenInstance) where
  gathered_sound :
      (ids : List String)
      → Memᴰ t (present (map (get m) ids))
      → (id : String) × (has_item id ids ≡ true) × (get m id ≡ some t)
  gathered_sound [] h = elim h [ ]
  gathered_sound (x ∷ ids) h = elim (Option-cases (get m x)) [
    | inl absent ↦
        let rest : Memᴰ t (present (map (get m) ids)) =
          subst (λ o. Memᴰ t (present (o ∷ map (get m) ids))) absent h in
        let (id, listed, at) = gathered_sound ids rest in (id, rw listed (ground arith), at)
    | inr (u, there) ↦
        let here : Memᴰ t (u ∷ present (map (get m) ids)) =
          subst (λ o. Memᴰ t (present (o ∷ map (get m) ids))) there h in
        elim here [
          | Memᴰ.head e ↦ (x, rw ((eq_iff x x).1 refl) refl, there ∙ ap some (sym e))
          | Memᴰ.tail rest ↦
              let (id, listed, at) = gathered_sound ids rest in (id, rw listed (ground arith), at)
        ]
  ]

  gathered_complete :
      (ids : List String) (id : String)
      → has_item id ids ≡ true
      → get m id ≡ some t
      → Memᴰ t (present (map (get m) ids))
  gathered_complete [] id h at = absurd (ground arith)
  gathered_complete (x ∷ ids) id h at = elim (Bool-cases (x == id)) [
    | inl same ↦
        let there : some t ≡ get m x = sym at ∙ ap (get m) (sym ((eq_iff x id).0 same)) in
        subst (λ o. Memᴰ t (present (o ∷ map (get m) ids))) there (Memᴰ.head refl)
    | inr other ↦
        let rest = gathered_complete ids id (rw other at h) at in
        elim (Option-cases (get m x)) [
          | inl absent ↦ subst (λ o. Memᴰ t (present (o ∷ map (get m) ids))) (sym absent) rest
          | inr (u, there) ↦
              subst (λ o. Memᴰ t (present (o ∷ map (get m) ids))) (sym there) (Memᴰ.tail rest)
        ]
  ]

-- `tokensForOwner` lists a token exactly if the index holds its id for the owner.
listed_sound :
    (tokens : Tokens) (owner : String) (t : TokenInstance)
    → Memᴰ t (tokens_for_owner tokens owner)
    → (id : String) × (held tokens.owner_to_ids owner id ≡ true) × (get tokens.by_id id ≡ some t)
unfolding tokens_for_owner has
listed_sound tokens owner t h = elim (Option-cases (get tokens.owner_to_ids owner)) [
  | inl absent ↦ let nothing : Memᴰ t [] = rw (absent, tokens_for_owner) at h in elim nothing [ ]
  | inr (ids, there) ↦
      let listing : Memᴰ t (present (map (get tokens.by_id) ids.items)) =
        rw (there, tokens_for_owner) at h in
      rw there (gathered_sound tokens.by_id t ids.items listing)
]

listed_complete :
    (tokens : Tokens) (owner id : String) (t : TokenInstance)
    → held tokens.owner_to_ids owner id ≡ true
    → get tokens.by_id id ≡ some t
    → Memᴰ t (tokens_for_owner tokens owner)
unfolding tokens_for_owner has empty
listed_complete tokens owner id t h at = elim (Option-cases (get tokens.owner_to_ids owner)) [
  | inl absent ↦ let nothing : false ≡ true = rw absent at h in absurd (cc nothing)
  | inr (ids, there) ↦
      rw (there, tokens_for_owner)
        (gathered_complete tokens.by_id t ids.items id (rw there at h) at)
]

-- The tokens listed are the stored ones that name the owner.
pub tokens_for_owner-IsIndexed :
    (e : Env) (n : _) (tokens : Tokens) (owner : String) (t : TokenInstance)
    → IsIndexedBy e n tokens
    → Memᴰ t (tokens_for_owner tokens owner)
      ↔ ((get tokens.by_id t.id ≡ some t) × (owner_of t ≡ some owner))
tokens_for_owner-IsIndexed e n tokens owner t h = (
  (λ listed.
      let (id, listing, at) = listed_sound tokens owner t listed in
      let own : is_owned_by t owner ≡ true =
        ap (λ r. owned_in r owner) (sym at) ∙ sym (h.agrees owner id) ∙ listing in
      (ap (get tokens.by_id) (h.keyed id t at) ∙ at, is_owned_by→owner_of t owner own)),
  (λ (at, own).
      let mine : is_owned_by t owner ≡ true =
        is_owned_by-owner t owner owner own ∙ (eq_iff owner owner).1 refl in
      listed_complete tokens owner t.id t
        (h.agrees owner t.id ∙ ap (λ r. owned_in r owner) at ∙ mine) at),
)
