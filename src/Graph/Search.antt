-- ===== src/Graph/Search.antt =====
-- BFS and BFSReverse of lib/graph.go.
use paxi.Common.{
  ℕ, zero, suc, Bool, true, false, Option, none, some, List, [], ◌∷◌, ◌++◌, if◌then◌else◌, Eq, same,
  length,
}
use paxi.Graph.{Graph, out, into}
pub mod Correct

-- The variables of the search; the list `queue` is popped at its front.
pub record Search (A : Type 0) : Type 0 where
  pub result : List A
  pub visited : A → Bool
  pub queue : List A

module _ {A : Type 0} ⦃e : Eq A⦄ where
  -- The loop over the neighbours.
  unfoldable pub scan : Search A → List A → Search A
  scan s [] = s
  scan s (t ∷ ts) =
      scan
        (if s.visited t then s else record s {
          visited = λ w. if same t w then true else s.visited w;
          queue = s.queue ++ t ∷ [];
        })
        ts

  -- The loop over the queue, on fuel; none when it is used up.
  unfoldable pub search_loop : (A → List A) → ℕ → Search A → Option (List A)
  search_loop next zero s = elim s.queue [ [] ↦ some s.result | x ∷ rest ↦ none ]
  search_loop next (suc fuel) s = elim s.queue [
    | [] ↦ some s.result
    | x ∷ rest ↦
        search_loop next fuel
          (scan (record s { result = s.result ++ x ∷ []; queue = rest }) (next x))
  ]

  unfoldable pub search_from : (A → List A) → ℕ → A → Option (List A)
  unfolding search_loop scan
  search_from next fuel v =
      search_loop next fuel
        (record { result = []; visited = λ w. if same v w then true else false; queue = v ∷ [] })

  -- Graph.BFS: one round for each vertex, and one for a source that is not in the graph, are enough.
  unfoldable pub bfs : Graph A → A → Option (List A)
  unfolding search_from
  bfs g v = search_from (out g) (suc (length g.vertices)) v

  -- Graph.BFSReverse
  unfoldable pub bfs_reverse : Graph A → A → Option (List A)
  unfolding search_from
  bfs_reverse g v = search_from (into g) (suc (length g.vertices)) v
