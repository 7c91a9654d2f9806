-- ===== src/Tokens/Index.antt =====
-- The owner index of standin-service/src/tokens.ts beside the tokens' own `owner` identities, both as
-- Boolean tests.
use mathlib.Core.Option
use finlabs_explore.Prelude.{
  String, ◌≡◌, Bool, true, false, not, ◌&&◌, ◌||◌, Option, none, some, Option-cases, inl, inr, List,
  [], ◌∷◌, or_default, arith, ◌==◌, eq_iff, if◌then◌else◌, find, Bool-cases,
}
use finlabs_explore.Js.Dict.{Dict, get, get-put}
use finlabs_explore.Js.StrSet
use finlabs_explore.Js.StrSet.{StrSet, has-add, has-delete, has-empty}
use finlabs_explore.Types.Credential.{Identity}
use finlabs_explore.Types.Token.{TokenInstance}
use finlabs_explore.Tokens.{
  index_owner, unindex_owner, owner_of, is_owned_by, set_owner, moved_token,
}

-- The index lists the token under the owner.
abbrev pub held : Dict StrSet → String → String → Bool
held index owner id = StrSet.has (or_default (get index owner) StrSet.empty) id

-- The token is stored, and its first `owner` identity is the owner.
abbrev pub owned_in : Option TokenInstance → String → Bool
owned_in none owner = false
owned_in (some t) owner = is_owned_by t owner

abbrev pub owned : Dict TokenInstance → String → String → Bool
owned by_id owner id = owned_in (get by_id id) owner

pub held-index_owner :
    (index : Dict StrSet) (a t o i : String)
    → held (index_owner a t index) o i
      ≡ (if a == o then t == i || held index o i else held index o i)
unfolding index_owner
held-index_owner index a t o i =
    rw get-put (ground (arith, eq_iff a o, has-add (or_default (get index a) StrSet.empty) t i))

pub held-unindex_owner :
    (index : Dict StrSet) (a t o i : String)
    → held (unindex_owner a t index) o i
      ≡ (if a == o then not (t == i) && held index o i else held index o i)
unfolding unindex_owner
held-unindex_owner index a t o i = elim (Option-cases (get index a)) [
  | inl absent ↦ rw (absent, unindex_owner) (ground (arith, eq_iff a o, has-empty i))
  | inr (ids, there) ↦
      rw (there, unindex_owner, get-put) (ground (arith, eq_iff a o, has-delete ids t i))
]

-- A transfer writes to the identity that `owner_of` reads.
set_owner-find :
    (to_did : String) (is : List Identity) (o : String)
    → Option.map (λ i. i.id) (find (λ i. i.kind == "owner") is) ≡ some o
    → Option.map (λ i. i.id) (find (λ i. i.kind == "owner") (set_owner to_did is)) ≡ some to_did
unfolding set_owner
set_owner-find to_did [] o h = cc
set_owner-find to_did (i ∷ is) o h = elim (Bool-cases (i.kind == "owner")) [
  | inl here ↦ rw here (rw here)
  | inr there ↦ rw there (rw there (set_owner-find to_did is o (rw there at h)))
]

pub is_owned_by→owner_of :
    (t : TokenInstance) (o : String) → is_owned_by t o ≡ true → owner_of t ≡ some o
unfolding is_owned_by
is_owned_by→owner_of t o h = elim (Option-cases (owner_of t)) [
  | inl no_owner ↦ ground arith
  | inr (x, owner) ↦ ground (arith, eq_iff x o)
]

pub owner_of-moved_token :
    (t : TokenInstance) (to_did commitment now o : String)
    → owner_of t ≡ some o
    → owner_of (moved_token t to_did commitment now) ≡ some to_did
unfolding owner_of moved_token
owner_of-moved_token t to_did commitment now o h = set_owner-find to_did t.identities o h
