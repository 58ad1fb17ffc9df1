-- ===== src/Tests/CheckerTests.antt =====
-- A history of two writes, one after the other, and a read of the first after both.
use paxi.Common.{ℕ, ◌≡◌, ◌⊎◌, refl, true, none, some, [], ◌∷◌, nat_eq, arith, ◌==◌, if◌then◌else◌}
use paxi.Set.{has, add, remove}
use paxi.Graph.{
  Graph, new_graph, add_vertex, add_edge, link, add_at, remove_at, remove_all, remove_vertex,
  remove_edge,
}
use paxi.Graph.Cycle.{cycle, visit, visit_all, visit_roots}
use paxi.Graph.Refine.{Represents, new_graph-Represents, add_vertex-Represents}
use paxi.Checker
use paxi.Checker.{
  Operation, happen_before, concurrent, add_edges, inherit, merge, same_value, matching, look_ahead,
  cut_from, cut, find_anomaly, check_one, check_all, linearizable,
}
use paxi.Checker.Order.{add-Represents}

unfoldable checker_run : Unit {0}
unfolding has add remove add_vertex add_edge link add_at remove_at remove_all remove_vertex
    remove_edge cycle visit visit_all visit_roots happen_before concurrent add_edges Checker.add
    inherit merge same_value matching look_ahead cut_from cut find_anomaly check_one check_all
    linearizable
checker_run = tt

abbrev ops : ℕ → Operation ℕ
ops n =
    if n == 0
    then record { input = some 1; output = none; start = 0; «end» = 1 }
    else (if n == 1
        then record { input = some 2; output = none; start = 2; «end» = 3 }
        else record { input = none; output = some 1; start = 4; «end» = 5 })

stale_read : linearizable (λ o h. h) ops (0 ∷ 1 ∷ 2 ∷ []) ≡ some (2 ∷ [])
unfolding checker_run
stale_read = refl

-- Without the second write there is no anomaly.
fresh_read : linearizable (λ o h. h) ops (0 ∷ 2 ∷ []) ≡ some []
unfolding checker_run
fresh_read = refl

abbrev Is : ℕ → ℕ → Type 0
Is n x = ⊥ ⊎ (x ≡ n)

abbrev first_added : Graph ℕ
first_added = add_vertex new_graph 0

first_added-Represents : Represents first_added (Is 0) (λ v w. ⊥)
first_added-Represents = add_vertex-Represents new_graph new_graph-Represents 0

add-Represents_example :
    (Is 0 1 → Checker.add ops first_added 1 ≡ some first_added)
    × ((Is 0 1 → ⊥)
        → (g' : Graph ℕ) × (Checker.add ops first_added 1 ≡ some g')
          × Represents g'
              (λ x. Is 0 x ⊎ (x ≡ 1))
              (λ v w. ⊥ ⊎ ((Is 0 v × (happen_before (ops v) (ops 1) ≡ true)) × (w ≡ 1))))
add-Represents_example = add-Represents ops first_added 1 first_added-Represents (omega arith)
