-- ===== src/Tests/Aligned.antt =====
-- The theorem on logs and leaves, after an account, a class and a mint.
use finlabs_explore.Prelude.{String, ◌≡◌, ◌≤◌}
use finlabs_explore.Ledger.Aligned.{proved_ids, logged_ids, count}
use finlabs_explore.App.Aligned.{Reachable-IsAligned}
use finlabs_explore.Tests.Toy.{toy, toy-IsFaithful}
use finlabs_explore.Tests.Cases.{lenient}
use finlabs_explore.Tests.Chaining.{minted_world, minted_world-Reachable}

Reachable-IsAligned_example :
    (proved_ids minted_world.ledger ≡ logged_ids minted_world.ledger)
    × ((id : String) → count id (proved_ids minted_world.ledger) ≤ 1)
Reachable-IsAligned_example =
    Reachable-IsAligned toy toy-IsFaithful lenient minted_world minted_world-Reachable
