-- ===== src/Checker.antt =====
-- operation.go and checker.go: the operations of a history and the graph of their order in time. A
-- pointer to an operation is a number, and `ops` is what the pointers point to.
use paxi.Common.{
  ℕ, Bool, true, false, not, ◌&&◌, Option, none, some, List, [], ◌∷◌, ◌++◌, ltb, ◌==◌,
  if◌then◌else◌, put, Eq, same, nat_eq,
}
use paxi.Set.{has}
use paxi.Graph.{Graph, new_graph, out, into, add_vertex, add_edge, remove_vertex, remove_edge}
use paxi.Graph.Cycle.{cycle}
pub mod Order

-- type operation, over the values that clients read and write; none is nil. The times are not negative.
pub record Operation (A : Type 0) : Type 0 where
  pub input : Option A
  pub output : Option A
  pub start : ℕ
  pub «end» : ℕ

-- The loop of merge.
unfoldable pub inherit : List ℕ → Graph ℕ → ℕ → Option (Graph ℕ)
inherit [] g write = some g
inherit (s ∷ ss) g write = elim (if s == write then some g else add_edge g s write) [
  | none ↦ none
  | some g' ↦ inherit ss g' write
]

module _ {A : Type 0} where
  unfoldable pub happen_before : Operation A → Operation A → Bool
  happen_before a b = ltb a.«end» b.start

  unfoldable pub concurrent : Operation A → Operation A → Bool
  unfolding happen_before
  concurrent a b = not (happen_before a b) && not (happen_before b a)

  -- The loop of add; none is a panic of AddEdge.
  unfoldable pub add_edges : (ℕ → Operation A) → List ℕ → Graph ℕ → ℕ → Option (Graph ℕ)
  unfolding happen_before
  add_edges ops [] g o = some g
  add_edges ops (v ∷ vs) g o =
      elim (if happen_before (ops v) (ops o) then add_edge g v o else some g) [
        | none ↦ none
        | some g' ↦ add_edges ops vs g' o
      ]

  -- checker.add
  unfoldable pub add : (ℕ → Operation A) → Graph ℕ → ℕ → Option (Graph ℕ)
  unfolding add_edges
  add ops g o =
      if has g.vertices o
      then some g
      else (let g' = add_vertex g o in add_edges ops g'.vertices g' o)

  -- checker.merge
  unfoldable pub merge : (ℕ → Operation A) → Graph ℕ → ℕ → ℕ → Option ((ℕ → Operation A) × Graph ℕ)
  unfolding inherit
  merge ops g read write = elim (inherit (into g read) g write) [
    | none ↦ none
    | some g' ↦
        let ended =
          if ltb (ops read).«end» (ops write).«end»
          then put ops write (record (ops write) { «end» = (ops read).«end» })
          else ops in
        some (ended, remove_vertex g' read)
  ]

module _ {A : Type 0} ⦃e : Eq A⦄ where
  -- `==` of two values, of which nil is one.
  unfoldable pub same_value : Option A → Option A → Bool
  same_value none none = true
  same_value none (some b) = false
  same_value (some a) none = false
  same_value (some a) (some b) = same a b

  -- checker.match over the vertices: the first whose input the read has read.
  unfoldable pub matching : (ℕ → Operation A) → List ℕ → ℕ → Option ℕ
  unfolding same_value
  matching ops [] read = none
  matching ops (v ∷ vs) read =
      let rest = matching ops vs read in
      if same_value (ops read).output (ops v).input then some v else rest

module _ {A : Type 0} where
  -- The loop of linearizable that looks ahead for concurrent writes.
  unfoldable pub look_ahead : (ℕ → Operation A) → List ℕ → Graph ℕ → ℕ → Option (Graph ℕ)
  unfolding concurrent add
  look_ahead ops [] g o = some g
  look_ahead ops (j ∷ js) g o = elim (concurrent (ops o) (ops j)) [
    | false ↦ some g
    | true ↦
        let added : Option (Graph ℕ) = elim (ops j).output [
          | none ↦ add ops g j
          | some x ↦ some g
        ] in
        elim added [ none ↦ none | some g' ↦ look_ahead ops js g' o ]
  ]

  -- The inner loop over the cycle.
  unfoldable pub cut_from : (ℕ → Operation A) → ℕ → List ℕ → Graph ℕ → Graph ℕ
  cut_from ops u [] g = g
  cut_from ops u (v ∷ vs) g =
      cut_from ops u vs
        (if has (out g u) v && ltb (ops v).«end» (ops u).start then remove_edge g u v else g)

  -- The outer loop over the cycle.
  unfoldable pub cut : (ℕ → Operation A) → List ℕ → List ℕ → Graph ℕ → Graph ℕ
  unfolding cut_from
  cut ops [] vs g = g
  cut ops (u ∷ us) vs g = cut ops us vs (cut_from ops u vs g)

  -- The search for a cycle after a read, with the reads that are anomalies.
  unfoldable pub find_anomaly :
      (ℕ → Operation A) → Graph ℕ → ℕ → Option ((ℕ → Operation A) × Graph ℕ × List ℕ)
  unfolding cut
  find_anomaly ops g o = elim (cycle g) [
    | none ↦ none
    | some found ↦ elim found [
      | none ↦ some (ops, g, [])
      | some c ↦ some (ops, cut ops c c g, o ∷ [])
    ]
  ]

module _ {A : Type 0} ⦃e : Eq A⦄ where
  -- One round of linearizable, with the operations that come later.
  unfoldable pub check_one :
      (ℕ → Operation A) → Graph ℕ → ℕ → List ℕ → Option ((ℕ → Operation A) × Graph ℕ × List ℕ)
  unfolding add look_ahead matching merge find_anomaly
  check_one ops g o later = elim (add ops g o) [
    | none ↦ none
    | some g1 ↦ elim (ops o).input [
      | some x ↦ some (ops, g1, [])
      | none ↦ elim (look_ahead ops later g1 o) [
        | none ↦ none
        | some g2 ↦ elim (matching ops g2.vertices o) [
          | none ↦ find_anomaly ops g2 o
          | some w ↦ elim (merge ops g2 o w) [
            | none ↦ none
            | some (ops', g3) ↦ find_anomaly ops' g3 o
          ]
        ]
      ]
    ]
  ]

  -- checker.linearizable on a history in the order of its starts.
  unfoldable pub check_all : (ℕ → Operation A) → Graph ℕ → List ℕ → Option (List ℕ)
  unfolding check_one
  check_all ops g [] = some []
  check_all ops g (o ∷ later) = elim (check_one ops g o later) [
    | none ↦ none
    | some (ops', g', found) ↦ elim (check_all ops' g' later) [
      | none ↦ none
      | some more ↦ some (found ++ more)
    ]
  ]

  -- checker.linearizable; `sort` is sort.Sort by the starts.
  unfoldable pub linearizable :
      ((ℕ → Operation A) → List ℕ → List ℕ) → (ℕ → Operation A) → List ℕ → Option (List ℕ)
  unfolding check_all
  linearizable sort ops history = check_all ops new_graph (sort ops history)
