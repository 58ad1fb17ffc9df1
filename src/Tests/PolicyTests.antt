-- ===== src/Tests/PolicyTests.antt =====
-- The consecutive policy with a threshold of three.
use paxi.Common.{◌≡◌, refl, arith, true, List, [], ◌∷◌, In, replicate, bytes_eq}
use paxi.Id.{NodeId}
use paxi.Policy.{
  Consecutive, new_consecutive, count_hit, hit_consecutive, hit_all, bump_hits, most_hits,
  reset_majority, hit_majority,
}
use paxi.Policy.Streak.{streak_triggers}
use paxi.Tests.Nodes.{n11, n12}

unfoldable policy_run : Unit {0}
unfolding bytes_eq new_consecutive count_hit hit_consecutive hit_all bump_hits most_hits
    reset_majority hit_majority
policy_run = tt

abbrev before : List NodeId
before = n11 ∷ n12 ∷ n12 ∷ []

abbrev one_hit : Consecutive
one_hit = record { last = n11; hits = 1; n = 3 }

streak_triggers_example : In n12 (hit_all one_hit (replicate 3 n12)).1
streak_triggers_example = streak_triggers one_hit n12 (omega arith)

-- With two hits by one node and one by another, both have at least half of three, rounded down.
one_of_three :
    let m = (hit_majority true (record { hits = (n11, 2) ∷ []; sum = 2 }) n12) in m.1 ≡ n12
unfolding policy_run
one_of_three = refl
