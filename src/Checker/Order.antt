-- ===== src/Checker/Order.antt =====
-- What checker.go adds to its graph.
use paxi.Common.{
  ℕ, ◌≡◌, ◌≤◌, ◌⊎◌, inl, inr, refl, sym, ap, subst, ◌∙◌, true, false, some, List, [], ◌∷◌, In, ltb,
  same, not_same, same→eq, nat_eq, arith, Bool-cases, iff_refl,
}
use paxi.Set.{has, has_iff}
use paxi.Graph.{Graph, add_vertex}
use paxi.Graph.Refine.{Represents, Represents-ext, add_vertex-Represents, add_edge-Represents}
use paxi.Checker.{Operation, happen_before, add_edges, add}

module _ {A : Type 0} (ops : ℕ → Operation A) where
  before_apart :
      (v o : ℕ)
      → (ops o).start ≤ (ops o).«end»
      → happen_before (ops v) (ops o) ≡ true
      → same v o ≡ false
  unfolding happen_before
  before_apart v o lasts before = elim (Bool-cases (same v o)) [
    | inr apart ↦ apart
    | inl is_o ↦
        let itself : ltb (ops o).«end» (ops o).start ≡ true =
          ap (λ z. ltb (ops z).«end» (ops o).start) (sym (same→eq v o is_o)) ∙ before in
        absurd (ground (arith, itself, lasts))
  ]

  add_edges-Represents :
      (vs : List ℕ) (g : Graph ℕ) (o : ℕ) {V : ℕ → Type 0} {E : ℕ → ℕ → Type 0}
      → Represents g V E
      → (ops o).start ≤ (ops o).«end»
      → ((v : ℕ) → In v vs → V v)
      → V o
      → (g' : Graph ℕ) × (add_edges ops vs g o ≡ some g')
        × Represents g' V
            (λ v w. E v w ⊎ ((In v vs × (happen_before (ops v) (ops o) ≡ true)) × (w ≡ o)))
  unfolding add_edges
  add_edges-Represents [] g o rep lasts inside here = (
    g,
    refl,
    Represents-ext rep (λ x. iff_refl)
        (λ x y. (inl, λ h. elim h [ inl q ↦ q | inr ((i, b), at_o) ↦ absurd i ])),
  )
  add_edges-Represents (v ∷ vs) g o {V} {E} rep lasts inside here =
      elim (Bool-cases (happen_before (ops v) (ops o))) [
        | inr later ↦
            let (g', done, rep') =
              add_edges-Represents vs g o rep lasts (λ w i. inside w (inr i)) here in
            (
              g',
              rw (add_edges, later) done,
              Represents-ext rep' (λ x. iff_refl)
                  (λ x y. (
                    λ h. elim h [ inl q ↦ inl q | inr ((i, b), at_o) ↦ inr ((inr i, b), at_o) ],
                    λ h. elim h [
                      | inl q ↦ inl q
                      | inr ((inl is_v, b), at_o) ↦
                          let b_v : happen_before (ops v) (ops o) ≡ true =
                            ap (λ z. happen_before (ops z) (ops o)) (sym is_v) ∙ b in
                          cc (b_v, later)
                      | inr ((inr i, b), at_o) ↦ inr ((i, b), at_o)
                    ],
                  )),
            )
        | inl before ↦
            let apart : same v o ≡ false = before_apart v o lasts before in
            let (g1, added, rep1) = add_edge-Represents g v o rep apart in
            let rep2 =
              Represents-ext {V' = V} rep1
                (λ x. (
                  λ h. elim h [
                    | inl (inl q) ↦ q
                    | inl (inr is_v) ↦ subst V (sym is_v) (inside v (inl refl))
                    | inr is_o ↦ subst V (sym is_o) here
                  ],
                  λ q. inl (inl q),
                ))
                (λ x y. iff_refl) in
            let (g', done, rep') =
              add_edges-Represents vs g1 o rep2 lasts (λ w i. inside w (inr i)) here in
            (
              g',
              rw (add_edges, before, added) done,
              Represents-ext rep' (λ x. iff_refl)
                  (λ x y. (
                    λ h. elim h [
                      | inl (inl q) ↦ inl q
                      | inl (inr (is_v, at_o)) ↦
                          inr (
                            (inl is_v, ap (λ z. happen_before (ops z) (ops o)) is_v ∙ before),
                            at_o,
                          )
                      | inr ((i, b), at_o) ↦ inr ((inr i, b), at_o)
                    ],
                    λ h. elim h [
                      | inl q ↦ inl (inl q)
                      | inr ((inl is_v, b), at_o) ↦ inl (inr (is_v, at_o))
                      | inr ((inr i, b), at_o) ↦ inr ((i, b), at_o)
                    ],
                  )),
            )
      ]

  -- add ends without a panic: in a graph that represents the vertices V and the edges E, an operation that does not end before it
  -- starts becomes a vertex, and when it was none, it gets an edge from exactly the vertices that happened before
  -- it; an operation that is a vertex changes nothing.
  pub add-Represents :
      (g : Graph ℕ) (o : ℕ) {V : ℕ → Type 0} {E : ℕ → ℕ → Type 0}
      → Represents g V E
      → (ops o).start ≤ (ops o).«end»
      → (V o → add ops g o ≡ some g)
        × ((V o → ⊥)
            → (g' : Graph ℕ) × (add ops g o ≡ some g')
              × Represents g'
                  (λ x. V x ⊎ (x ≡ o))
                  (λ v w. E v w ⊎ ((V v × (happen_before (ops v) (ops o) ≡ true)) × (w ≡ o))))
  unfolding add
  add-Represents g o {V} {E} rep lasts = (
    λ inside. rw (add, (has_iff g.vertices o).1 ((rep.members o).1 inside)) refl,
    λ new. elim (Bool-cases (has g.vertices o)) [
      | inl old ↦ absurd (new ((rep.members o).0 ((has_iff g.vertices o).0 old)))
      | inr fresh ↦
          let g1 = add_vertex g o in
          let rep1 = add_vertex-Represents g rep o in
          let (g', done, rep') =
            add_edges-Represents g1.vertices g1 o rep1 lasts (λ v i. (rep1.members v).0 i)
              (inr refl) in
          (
            g',
            rw (add, fresh) done,
            Represents-ext rep' (λ x. iff_refl)
                (λ x y. (
                  λ h. elim h [
                    | inl q ↦ inl q
                    | inr ((i, b), at_o) ↦ elim ((rep1.members x).0 i) [
                      | inl v ↦ inr ((v, b), at_o)
                      | inr is_o ↦ absurd (not_same x o (before_apart x o lasts b) (sym is_o))
                    ]
                  ],
                  λ h. elim h [
                    | inl q ↦ inl q
                    | inr ((v, b), at_o) ↦ inr (((rep1.members x).1 (inl v), b), at_o)
                  ],
                )),
          )
    ],
  )
