-- ===== src/Ledger/Merkle.antt =====
-- The Merkle engine of standin-service/src/ledger.ts (`hashPair`, `merkleLevels` and the loop
-- of `getProof`).
pub mod Fold
pub mod Binding
pub mod Doubling
use mathlib.Core.Option
use finlabs_explore.Prelude.{
  ℕ, zero, suc, ◌+◌, ◌-◌, ◌/◌, ◌%◌, String, Bool, true, false, Option, none, some, List, [], ◌∷◌,
  length, get_or, ltb, ◌=ℕ=◌, if◌then◌else◌,
}
use finlabs_explore.Js.Text.{◌+ₛ◌}
use finlabs_explore.Crypto.Packages.{Primitives}
use finlabs_explore.Crypto.{sha256_hex}

pub data Direction : Type 0 where
  left right : Direction

pub record ProofPathNode : Type 0 where
  pub hash : String
  pub direction : Direction

-- One turn of the loop over `levels`: the sibling of position `idx`, itself if there is none.
unfoldable pub path_node : List String → ℕ → ProofPathNode
path_node level idx =
    let is_right = idx % 2 =ℕ= 1 in
    let sib_idx = if is_right then idx - 1 else idx + 1 in
    record {
      hash = if ltb sib_idx (length level) then get_or level sib_idx "" else get_or level idx "";
      direction = if is_right then left else right;
    }

-- `for (let l = 0; l < levels.length - 1; l++)`
unfoldable pub proof_path : List (List String) → ℕ → List ProofPathNode
unfolding path_node
proof_path [] idx = []
proof_path (top ∷ []) idx = []
proof_path (level ∷ above ∷ more) idx = path_node level idx ∷ proof_path (above ∷ more) (idx / 2)

-- `levels[levels.length - 1]![0]!`
unfoldable pub merkle_root : List (List String) → String
merkle_root [] = ""
merkle_root (top ∷ []) = get_or top 0 ""
merkle_root (level ∷ above ∷ more) = merkle_root (above ∷ more)

module _ (p : Primitives) where
  unfoldable pub hash_pair : String → String → String
  hash_pair l r = sha256_hex p (l +ₛ r)

  -- The inner loop: neighbours are hashed together, the last with itself if it has none.
  unfoldable pub next_level : List String → List String
  next_level [] = []
  next_level (l ∷ []) = hash_pair l l ∷ []
  next_level (l ∷ r ∷ cur) = hash_pair l r ∷ next_level cur

  -- `while (cur.length > 1)`, with fuel: the levels above `cur`.
  unfoldable pub levels_above : ℕ → List String → Option (List (List String))
  levels_above zero cur = none
  levels_above (suc fuel) cur =
      let above = next_level cur in
      let rest = Option.map (◌∷◌ above) (levels_above fuel above) in
      if ltb 1 (length cur) then rest else some []

  unfoldable pub merkle_levels : List String → Option (List (List String))
  merkle_levels [] = some (("" ∷ []) ∷ [])
  merkle_levels (h ∷ hashes) =
      Option.map (◌∷◌ (h ∷ hashes)) (levels_above (length (h ∷ hashes)) (h ∷ hashes))
