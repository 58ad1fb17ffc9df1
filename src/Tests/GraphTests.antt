-- ===== src/Tests/GraphTests.antt =====
-- The graph 4 → 1 → 2 → 3 → 1, built edge by edge.
use paxi.Common.{
  ℕ, ◌≡◌, ◌↔◌, ◌⊎◌, refl, sym, subst, true, false, Option, none, some, List, [], ◌∷◌, same, nat_eq,
  In, Distinct,
}
use paxi.Set.{has, add, remove, add_all, clone}
use paxi.Graph.{
  Graph, new_graph, add_vertex, remove_vertex, link, add_edge, remove_edge, transpose, add_at,
  remove_at, remove_all, clone_sets,
}
use paxi.Graph.Refine.{Represents, new_graph-Represents, add_edge-Represents, operations_lem}
use paxi.Graph.Search.{bfs, bfs_reverse, search_from, search_loop, scan}
use paxi.Graph.Search.Correct.{Reach, bfs-Reach}
use paxi.Graph.Cycle.{cyclic, cycle, visit, visit_all, visit_roots}
use paxi.Graph.Cycle.Visit.{Walk}
use paxi.Graph.Cycle.Correct.{cyclic_lem}

unfoldable graph_run : Unit {0}
unfolding has add remove add_all clone add_at remove_at remove_all add_vertex remove_vertex link
    add_edge remove_edge clone_sets transpose scan search_loop search_from bfs bfs_reverse visit
    visit_all visit_roots cyclic cycle
graph_run = tt

abbrev edges : List (ℕ × ℕ)
edges = (4, 1) ∷ (1, 2) ∷ (2, 3) ∷ (3, 1) ∷ []

abbrev graph_of : Option (Graph ℕ) → Graph ℕ
graph_of none = new_graph
graph_of (some g) = g

abbrev g1 : Graph ℕ
g1 = graph_of (add_edge new_graph 4 1)

abbrev g2 : Graph ℕ
g2 = graph_of (add_edge g1 1 2)

abbrev g3 : Graph ℕ
g3 = graph_of (add_edge g2 2 3)

abbrev g4 : Graph ℕ
g4 = graph_of (add_edge g3 3 1)

-- What an edge adds to the vertices and to the edges.
abbrev VWith : (ℕ → Type 0) → ℕ → ℕ → ℕ → Type 0
VWith V u v x = (V x ⊎ (x ≡ u)) ⊎ (x ≡ v)

abbrev EWith : (ℕ → ℕ → Type 0) → ℕ → ℕ → ℕ → ℕ → Type 0
EWith E u v x y = E x y ⊎ ((x ≡ u) × (y ≡ v))

abbrev V0 : ℕ → Type 0
V0 x = ⊥

abbrev E0 : ℕ → ℕ → Type 0
E0 x y = ⊥

abbrev E3 : ℕ → ℕ → Type 0
E3 = EWith (EWith (EWith E0 4 1) 1 2) 2 3

abbrev V3 : ℕ → Type 0
V3 = VWith (VWith (VWith V0 4 1) 1 2) 2 3

with_edge :
    (g : Graph ℕ) {V : ℕ → Type 0} {E : ℕ → ℕ → Type 0} (u v : ℕ)
    → Represents g V E
    → same u v ≡ false
    → Represents (graph_of (add_edge g u v)) (VWith V u v) (EWith E u v)
with_edge g {V} {E} u v h apart =
    let (g', added, h') = add_edge-Represents g u v h apart in
    subst (λ o. Represents (graph_of o) (VWith V u v) (EWith E u v)) (sym added) h'

g3-Represents : Represents g3 V3 E3
g3-Represents =
    with_edge g2 2 3 (with_edge g1 1 2 (with_edge new_graph 4 1 new_graph-Represents refl) refl)
      refl

g4-Represents : Represents g4 (VWith V3 3 1) (EWith E3 3 1)
g4-Represents = with_edge g3 3 1 g3-Represents refl

operations_lem_example :
    Represents (add_vertex g3 1) (λ x. V3 x ⊎ (x ≡ 1)) E3
    × Represents
        (remove_vertex g3 1)
        (λ x. V3 x × (x ≡ 1 → ⊥))
        (λ x y. E3 x y × (x ≡ 1 → ⊥) × (y ≡ 1 → ⊥))
    × ((g' : Graph ℕ) × (add_edge g3 3 1 ≡ some g') × Represents g' (VWith V3 3 1) (EWith E3 3 1))
    × Represents (remove_edge g3 3 1) V3 (λ x y. E3 x y × ((x ≡ 3) × (y ≡ 1) → ⊥))
    × Represents (transpose g3) V3 (λ x y. E3 y x)
operations_lem_example = operations_lem g3 3 1 g3-Represents refl

bfs-Reach_example :
    ((r : List ℕ) × (bfs g4 4 ≡ some r)
      × Distinct r
      × ((w : ℕ) → In w r ↔ Reach (EWith E3 3 1) 4 w))
    × ((r : List ℕ) × (bfs_reverse g4 4 ≡ some r)
        × Distinct r
        × ((w : ℕ) → In w r ↔ Reach (λ x y. EWith E3 3 1 y x) 4 w))
bfs-Reach_example = bfs-Reach g4 g4-Represents 4

cyclic_lem_example :
    ((cyclic g4 ≡ some true)
      × ((l : List ℕ) × (cycle g4 ≡ some (some l)) × ((x : ℕ) × In x l × Walk (EWith E3 3 1) x x)))
    ⊎ ((cyclic g4 ≡ some false) × (cycle g4 ≡ some none) × ((x : ℕ) → Walk (EWith E3 3 1) x x → ⊥))
cyclic_lem_example = cyclic_lem g4 g4-Represents

-- 4 is on no cycle, and yet in what Cycle gives.
runs :
    (bfs g4 4 ≡ some (4 ∷ 1 ∷ 2 ∷ 3 ∷ []))
    × (bfs_reverse g4 4 ≡ some (4 ∷ []))
    × (cyclic g3 ≡ some false)
    × (cycle g4 ≡ some (some (4 ∷ 1 ∷ 2 ∷ 3 ∷ [])))
    × (cyclic (remove_edge g4 1 2) ≡ some false)
    × (bfs (transpose g4) 1 ≡ some (1 ∷ 4 ∷ 3 ∷ 2 ∷ []))
    × (bfs (remove_vertex g4 2) 4 ≡ some (4 ∷ 1 ∷ []))
unfolding graph_run
runs = (refl, refl, refl, refl, refl, refl, refl)
