-- ===== src/Graph/Cycle/Correct.antt =====
-- Cyclic and Cycle of lib/graph.go against the cycles of the graph.
use paxi.Common.{
  ◌≡◌, ◌↔◌, ◌⊎◌, inl, inr, refl, sym, ap, ◌∙◌, true, false, none, some, List, [], ◌∷◌, Eq, length,
  In, count_le_length, arith, iff_refl,
}
use paxi.Graph.{Graph, out}
use paxi.Graph.Abstract.{Holds-start}
use paxi.Graph.Refine.{Represents}
use paxi.Graph.Cycle.{white, gray, Colors, visit_roots, gray_ones, cyclic, cycle}
use paxi.Graph.Cycle.Visit.{
  Color-cases, is_white, Walk, Finished, Visited, visit_lem, Advances-refl, then_rest,
}

module _ {A : Type 0} ⦃e : Eq A⦄ (E : A → A → Type 0) (next : A → List A)
    (next_iff : (u w : A) → In w (next u) ↔ E u w) where
  no_gray : (x : A) → white ≡ gray → ⊥
  no_gray x h = ground arith

  visit_roots_lem :
      (us vs : List A) (c : Colors A)
      → ((u w : A) → E u w → In w us)
      → ((v : A) → In v vs → In v us)
      → Finished E c
      → ((x : A) → c x ≡ gray → ⊥)
      → Visited E c vs (visit_roots next (length us) vs c)
  unfolding visit_roots
  visit_roots_lem us [] c inside subset f none_gray = inr (
    c,
    refl,
    record {
      finished = f;
      kept = λ x k. k;
      grays = λ x. iff_refl;
      whites = λ x k. k;
      passed = λ x i. absurd i;
    },
  )
  visit_roots_lem us (v ∷ vs) c inside subset f none_gray = elim (Color-cases (c v)) [
    | inr (inl is_gray) ↦ absurd (none_gray v is_gray)
    | inr (inr is_black) ↦
        rw (visit_roots, is_black)
          (then_rest E (Advances-refl E c v f is_black)
            (visit_roots_lem us vs c inside (λ x i. subset x (inr i)) f none_gray))
    | inl is_w ↦
        elim (visit_lem E next next_iff us (length us) inside v c f (subset v (inl refl)) is_w
          (count_le_length (λ x. is_white (c x)) us) (λ x g. absurd (none_gray x g))) [
            | inl (c', returns, found) ↦ rw (visit_roots, is_w, returns) (inl (c', refl, found))
            | inr (c', returns, a) ↦
                rw (visit_roots, is_w, returns)
                  (then_rest E a (
                    visit_roots_lem us vs c' inside (λ x i. subset x (inr i)) a.finished
                      (λ x g. none_gray x ((a.grays x).0 g))))
          ]
  ]

  In-gray_ones : (c : Colors A) (vs : List A) (x : A) → In x vs → c x ≡ gray → In x (gray_ones c vs)
  In-gray_ones c [] x i g = i
  In-gray_ones c (v ∷ vs) x (inl q) g =
      let here : c v ≡ gray = ap c (sym q) ∙ g in rw (In, gray_ones, here) (inl q)
  In-gray_ones c (v ∷ vs) x (inr i) g =
      let rest = In-gray_ones c vs x i g in
      elim (Color-cases (c v)) [
        | inl k ↦ rw (In, gray_ones, k) rest
        | inr (inl k) ↦ rw (In, gray_ones, k) (inr rest)
        | inr (inr k) ↦ rw (In, gray_ones, k) rest
      ]

module _ {A : Type 0} ⦃e : Eq A⦄ where
  -- Cyclic ends, and gives true when some vertex has a walk back to itself, and false when none has.
  -- Cycle gives nil in the second case, and in the first a list with a vertex that has one.
  pub cyclic_lem :
      (g : Graph A) {V : A → Type 0} {E : A → A → Type 0}
      → Represents g V E
      → ((cyclic g ≡ some true)
          × ((l : List A) × (cycle g ≡ some (some l)) × ((x : A) × In x l × Walk E x x)))
        ⊎ ((cyclic g ≡ some false) × (cycle g ≡ some none) × ((x : A) → Walk E x x → ⊥))
  unfolding cyclic cycle
  cyclic_lem g {V} {E} h =
      let start : Finished E (λ v. white) = record {
        closed = λ x y n. absurd (ground arith);
        acyclic = λ x n. absurd (ground arith);
      } in
      elim (visit_roots_lem E (out g) h.outgoing.related g.vertices g.vertices (λ v. white)
        (λ u w r. (h.members w).1 (Holds-start g.to w u h.incoming r)) (λ v i. i) start
        (no_gray E (out g) h.outgoing.related)) [
          | inl (c, returns, (x, is_gray, (w, r, edge))) ↦ inl (
            rw (cyclic, returns) refl,
            (
              gray_ones c g.vertices,
              rw (cycle, returns) refl,
              (
                x,
                In-gray_ones E (out g) h.outgoing.related c g.vertices x
                    ((h.members x).1 (Holds-start g.to x w h.incoming edge)) is_gray,
                (w, r, edge),
              ),
            ),
          )
          | inr (c, returns, a) ↦ inr (
            rw (cyclic, returns) refl,
            rw (cycle, returns) refl,
            λ x (w, r, edge).
                a.finished.acyclic x
                  (a.passed x ((h.members x).1 (Holds-start g.to x w h.incoming edge)))
                  (w, r, edge),
          )
        ]
