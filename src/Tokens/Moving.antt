-- ===== src/Tokens/Moving.antt =====
-- An invariant that the writes of a transfer keep is kept by `transferToken` of
-- standin-service/src/tokens.ts.
use finlabs_explore.Prelude.{Option-cases, Bool-cases, inl, inr}
use finlabs_explore.Js.Dict.{get}
use finlabs_explore.Types.Token.{TokenInstance, TransferInput}
use finlabs_explore.Tokens.{is_owned_by, move_token, transfer_token}
use finlabs_explore.World.{World}
use finlabs_explore.World.Env.{Env}
use finlabs_explore.World.Keeps.{Keeps}

pub transfer_token-Keeps :
    (e : Env) {P : World → Type 0} (input : TransferInput)
    → ((t : TokenInstance) → Keeps P (move_token e input t))
    → Keeps P (transfer_token e input)
transfer_token-Keeps e input moves = record {
  at = λ w h. elim (Option-cases (get w.tokens.by_id input.token_id)) [
    | inl missing ↦ unfold transfer_token in rw missing h
    | inr (t, there) ↦ elim (Bool-cases (is_owned_by t input.from_did)) [
      | inl mine ↦ unfold transfer_token in rw (there, mine) ((moves t).at w h)
      | inr other ↦ unfold transfer_token in rw (there, other) h
    ]
  ];
}
