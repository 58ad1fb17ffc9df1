-- ===== src/Graph/Cycle.antt =====
-- Cyclic and Cycle of lib/graph.go: the depth first search for a cycle.
use paxi.Common.{
  ℕ, zero, suc, Bool, true, false, Option, none, some, List, [], ◌∷◌, if◌then◌else◌, Eq, same,
  length,
}
use paxi.Set.{Set}
use paxi.Graph.{Graph, out}
pub mod Visit
pub mod Correct

-- type color int
pub data Color : Type 0 where
  white : Color
  gray : Color
  black : Color

-- `map[interface{}]color`; a missing key reads as white.
abbrev pub Colors : Type 0 → Type 0
Colors A = A → Color

module _ {A : Type 0} ⦃e : Eq A⦄ where
  -- `colors[v] = k`
  abbrev pub paint : Colors A → A → Color → Colors A
  paint c v k w = if same v w then k else c w

  -- The loop of visit, over the calls of visit.
  unfoldable pub visit_all :
      (A → Colors A → Option (Bool × Colors A)) → List A → Colors A → Option (Bool × Colors A)
  visit_all visit [] c = some (false, c)
  visit_all visit (u ∷ us) c = elim (c u) [
    | gray ↦ some (true, c)
    | white ↦ elim (visit u c) [
      | none ↦ none
      | some (found, c') ↦ elim found [ true ↦ some (true, c') | false ↦ visit_all visit us c' ]
    ]
    | black ↦ visit_all visit us c
  ]

  -- Graph.visit on fuel; none when it is used up. The colors are what it leaves.
  unfoldable pub visit : (A → List A) → ℕ → A → Colors A → Option (Bool × Colors A)
  unfolding visit_all
  visit next zero v c = none
  visit next (suc fuel) v c = elim (visit_all (visit next fuel) (next v) (paint c v gray)) [
    | none ↦ none
    | some (found, c') ↦ elim found [
      | true ↦ some (true, c')
      | false ↦ some (false, paint c' v black)
    ]
  ]

  -- The loop of Cyclic and Cycle over the vertices.
  unfoldable pub visit_roots : (A → List A) → ℕ → List A → Colors A → Option (Bool × Colors A)
  unfolding visit
  visit_roots next fuel [] c = some (false, c)
  visit_roots next fuel (v ∷ vs) c = elim (c v) [
    | white ↦ elim (visit next fuel v c) [
      | none ↦ none
      | some (found, c') ↦ elim found [
        | true ↦ some (true, c')
        | false ↦ visit_roots next fuel vs c'
      ]
    ]
    | gray ↦ visit_roots next fuel vs c
    | black ↦ visit_roots next fuel vs c
  ]

  -- The vertices of a color, in the order of the vertices.
  abbrev pub gray_ones : Colors A → List A → List A
  gray_ones c [] = []
  gray_ones c (v ∷ vs) =
      let rest = gray_ones c vs in elim (c v) [ gray ↦ v ∷ rest | white ↦ rest | black ↦ rest ]

  -- Graph.Cyclic; as many nested calls as there are vertices are enough.
  unfoldable pub cyclic : Graph A → Option Bool
  unfolding visit_roots
  cyclic g = elim (visit_roots (out g) (length g.vertices) g.vertices (λ v. white)) [
    | none ↦ none
    | some (found, c) ↦ some found
  ]

  -- Graph.Cycle; the inner none is nil.
  unfoldable pub cycle : Graph A → Option (Option (List A))
  unfolding visit_roots
  cycle g = elim (visit_roots (out g) (length g.vertices) g.vertices (λ v. white)) [
    | none ↦ none
    | some (found, c) ↦ some (if found then some (gray_ones c g.vertices) else none)
  ]
