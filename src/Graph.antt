-- ===== src/Graph.antt =====
-- lib/graph.go: directed graphs as adjacency sets in both directions. A range over a set visits its
-- elements in the order of its list.
use paxi.Common.{
  Bool, true, false, not, ◌||◌, Option, none, some, List, [], ◌∷◌, if◌then◌else◌, Eq, same,
}
use paxi.Set.{Set, has, add, remove, clone}
pub mod Abstract
pub mod Refine
pub mod Search
pub mod Cycle

-- A `map[interface{}]Set`; a missing key reads as the nil set.
abbrev pub SetMap : Type 0 → Type 0
SetMap A = A → Option (Set A)

-- type Graph
pub record Graph (A : Type 0) : Type 0 where
  pub vertices : Set A
  pub from : SetMap A
  pub to : SetMap A

module _ {A : Type 0} where
  abbrev pub or_nil : Option (Set A) → Set A
  or_nil none = []
  or_nil (some s) = s

  -- `m[v]` of a map of sets, where a range over nil has no rounds.
  abbrev pub set_at : SetMap A → A → Set A
  set_at m v = or_nil (m v)

  -- NewGraph
  abbrev pub new_graph : Graph A
  new_graph = record { vertices = []; from = λ v. none; to = λ v. none }

  -- Graph.From and Graph.To
  abbrev pub out : Graph A → A → Set A
  out g v = set_at g.from v

  abbrev pub into : Graph A → A → Set A
  into g v = set_at g.to v

module _ {A : Type 0} ⦃e : Eq A⦄ where
  -- `m[k] = o`, where none stands for `delete(m, k)`.
  abbrev pub put_set : SetMap A → A → Option (Set A) → SetMap A
  put_set m k o v = if same k v then o else m v

  -- `m[u].Add(v)`, which panics on the nil set.
  unfoldable pub add_at : SetMap A → A → A → Option (SetMap A)
  add_at m u v = elim (m u) [ none ↦ none | some s ↦ some (put_set m u (some (add s v))) ]

  -- `m[u].Remove(v)`, which leaves the nil set as it is.
  unfoldable pub remove_at : SetMap A → A → A → SetMap A
  remove_at m u v = elim (m u) [ none ↦ m | some s ↦ put_set m u (some (remove s v)) ]

  -- The loop of Remove over one of the two maps.
  unfoldable pub remove_all : SetMap A → List A → A → SetMap A
  unfolding remove_at
  remove_all m [] v = m
  remove_all m (u ∷ us) v = remove_all (remove_at m u v) us v

  -- Graph.Add
  unfoldable pub add_vertex : Graph A → A → Graph A
  add_vertex g v =
      if not (has g.vertices v)
      then record {
        vertices = add g.vertices v;
        from = put_set g.from v (some []);
        to = put_set g.to v (some []);
      }
      else g

  -- Graph.Remove
  unfoldable pub remove_vertex : Graph A → A → Graph A
  unfolding remove_all
  remove_vertex g v =
      if not (has g.vertices v)
      then g
      else (let vertices = remove g.vertices v in
          record {
            vertices = vertices;
            from = put_set (remove_all g.from vertices v) v none;
            to = put_set (remove_all g.to vertices v) v none;
          })

  -- The last two lines of AddEdge.
  unfoldable pub link : Graph A → A → A → Option (Graph A)
  unfolding add_at
  link g u v = elim (add_at g.from u v) [
    | none ↦ none
    | some from ↦ elim (add_at g.to v u) [
      | none ↦ none
      | some to ↦ some (record { vertices = g.vertices; from = from; to = to })
    ]
  ]

  -- Graph.AddEdge; none is a panic.
  unfoldable pub add_edge : Graph A → A → A → Option (Graph A)
  unfolding add_vertex link
  add_edge g u v =
      if same u v
      then none
      else (let g' = if not (has g.vertices u) then add_vertex g u else g in
          let g'' = if not (has g'.vertices v) then add_vertex g' v else g' in link g'' u v)

  -- Graph.RemoveEdge
  unfoldable pub remove_edge : Graph A → A → A → Graph A
  unfolding remove_at
  remove_edge g u v =
      if not (has g.vertices u) || not (has g.vertices v)
      then g
      else record g { from = remove_at g.from u v; to = remove_at g.to v u }

  -- The loop of Transpose over one of the two maps of the result.
  unfoldable pub clone_sets : SetMap A → List A → SetMap A → SetMap A
  clone_sets m [] into = into
  clone_sets m (v ∷ vs) into = clone_sets m vs (put_set into v (some (clone (set_at m v))))

  -- Graph.Transpose
  unfoldable pub transpose : Graph A → Graph A
  unfolding clone_sets
  transpose g = record {
    vertices = clone g.vertices;
    from = clone_sets g.to g.vertices (λ v. none);
    to = clone_sets g.from g.vertices (λ v. none);
  }
