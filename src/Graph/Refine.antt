-- ===== src/Graph/Refine.antt =====
-- The operations of lib/graph.go against those of an abstract graph.
use paxi.Common.{
  true, false, not, ◌≡◌, ◌↔◌, ◌⊎◌, inl, inr, refl, sym, subst, none, some, List, [], ◌∷◌,
  if◌then◌else◌, In, Distinct, Eq, same, iff_trans, iff_refl, or_assoc, Bool-cases, arith,
}
use paxi.Set.{
  has, remove, clone, has_iff, In-add, In-remove, Distinct-add, Distinct-remove, clone_lem,
}
use paxi.Graph.{
  SetMap, Graph, set_at, new_graph, put_set, add_at, add_vertex, remove_vertex, link, add_edge,
  remove_edge, clone_sets, transpose,
}
use paxi.Graph.Abstract.{
  Holds, Holds-put_set, Holds-start, Holds-new, Holds-add_at, Holds-remove_at, Holds-remove,
  Holds-ext,
}

-- The graph has the vertices in `V` and the edges of `E`, in both of its maps.
pub record Represents {A : Type 0} (g : Graph A) (V : A → Type 0) (E : A → A → Type 0)
    : Type 0 where
  pub distinct : Distinct g.vertices
  pub members : (v : A) → In v g.vertices ↔ V v
  pub outgoing : Holds g.from V E
  pub incoming : Holds g.to V (λ v w. E w v)

module _ {A : Type 0} ⦃e : Eq A⦄ where
  pub Represents-ext :
      {g : Graph A} {V V' : A → Type 0} {E E' : A → A → Type 0}
      → Represents g V E
      → ((x : A) → V x ↔ V' x)
      → ((x y : A) → E x y ↔ E' x y)
      → Represents g V' E'
  Represents-ext h same_v same_e = record {
    distinct = h.distinct;
    members = λ v. iff_trans (h.members v) (same_v v);
    outgoing = Holds-ext h.outgoing same_v same_e;
    incoming = Holds-ext h.incoming same_v (λ x y. same_e y x);
  }

  pub new_graph-Represents : Represents {A = A} new_graph (λ v. ⊥) (λ v w. ⊥)
  new_graph-Represents = record {
    distinct = tt;
    members = λ v. iff_refl;
    outgoing = record { keyed = λ v. ground arith; distinct = λ v. tt; related = λ v w. iff_refl };
    incoming = record { keyed = λ v. ground arith; distinct = λ v. tt; related = λ v w. iff_refl };
  }

  module _ (g : Graph A) {V : A → Type 0} {E : A → A → Type 0} (h : Represents g V E) where
    has-V : (v : A) → (has g.vertices v ≡ true) ↔ V v
    has-V v = iff_trans (has_iff g.vertices v) (h.members v)

    pub add_vertex-Represents : (v : A) → Represents (add_vertex g v) (λ x. V x ⊎ (x ≡ v)) E
    unfolding add_vertex
    add_vertex-Represents v = elim (Bool-cases (has g.vertices v)) [
      | inl old ↦ rw old (
          Represents-ext h
            (λ x. (inl, λ k. elim k [ inl i ↦ i | inr q ↦ subst V (sym q) ((has-V v).0 old) ]))
            (λ x y. iff_refl))
      | inr fresh ↦
          let new : V v → ⊥ = λ i. cc ((has-V v).1 i, fresh) in
          rw fresh (record {
            distinct = Distinct-add g.vertices v h.distinct;
            members = λ x. ground (arith, In-add g.vertices v x, h.members x);
            outgoing = Holds-new g.from v h.outgoing new;
            incoming = Holds-new g.to v h.incoming new;
          })
    ]

    pub remove_vertex-Represents :
        (v : A)
        → Represents
            (remove_vertex g v)
            (λ x. V x × (x ≡ v → ⊥))
            (λ x y. E x y × (x ≡ v → ⊥) × (y ≡ v → ⊥))
    unfolding remove_vertex
    remove_vertex-Represents v = elim (Bool-cases (has g.vertices v)) [
      | inr absent ↦
          let gone : V v → ⊥ = λ i. cc ((has-V v).1 i, absent) in
          rw absent (
            Represents-ext h (λ x. ((λ i. (i, λ q. gone (subst V q i))), λ (i, _). i))
              (λ x y. (
                (λ r. (
                  r,
                  (λ q. gone (subst V q (Holds-start g.from x y h.outgoing r))),
                  λ q. gone (subst V q (Holds-start g.to y x h.incoming r)),
                )),
                λ (r, _, _). r,
              )))
      | inl there ↦
          let all : (x : A) → V x → (x ≡ v → ⊥) → In x (remove g.vertices v) =
            λ x i other. (In-remove g.vertices v x).1 ((h.members x).1 i, other) in
          rw there (record {
            distinct = Distinct-remove g.vertices v h.distinct;
            members = λ x. (
              (λ i. let (j, other) = (In-remove g.vertices v x).0 i in ((h.members x).0 j, other)),
              λ (i, other). all x i other,
            );
            outgoing = Holds-remove (remove g.vertices v) g.from v h.outgoing all;
            incoming =
                Holds-ext (Holds-remove (remove g.vertices v) g.to v h.incoming all) (λ x. iff_refl)
                  (λ x y. ((λ (r, p, q). (r, q, p)), λ (r, q, p). (r, p, q)));
          })
    ]

    -- Without one of its ends there is no edge to remove.
    no_edge : (u v : A) → (E u v → ⊥) → Represents g V (λ x y. E x y × ((x ≡ u) × (y ≡ v) → ⊥))
    no_edge u v none_there =
        Represents-ext h (λ x. iff_refl)
          (λ x y. (
            (λ r. (r, λ (p, q). none_there (subst (λ z. E z v) p (subst (λ z. E x z) q r)))),
            λ (r, _). r,
          ))

    pub remove_edge-Represents :
        (u v : A) → Represents (remove_edge g u v) V (λ x y. E x y × ((x ≡ u) × (y ≡ v) → ⊥))
    unfolding remove_edge
    remove_edge-Represents u v = elim (Bool-cases (has g.vertices u)) [
      | inr absent ↦
          rw absent
            (no_edge u v (λ r. cc ((has-V u).1 (Holds-start g.from u v h.outgoing r), absent)))
      | inl there ↦ elim (Bool-cases (has g.vertices v)) [
        | inr absent ↦
            rw (there, absent)
              (no_edge u v (λ r. cc ((has-V v).1 (Holds-start g.to v u h.incoming r), absent)))
        | inl there' ↦
            rw (there, there')
              (record {
                distinct = h.distinct;
                members = h.members;
                outgoing = Holds-remove_at g.from u v h.outgoing;
                incoming =
                    Holds-ext (Holds-remove_at g.to v u h.incoming) (λ x. iff_refl)
                      (λ x y. (
                        (λ (r, other). (r, λ (p, q). other (q, p))),
                        λ (r, other). (r, λ (p, q). other (q, p)),
                      ));
              })
      ]
    ]

  add_missing :
      (g : Graph A) (v : A)
      → (if not (has g.vertices v) then add_vertex g v else g) ≡ add_vertex g v
  unfolding add_vertex
  add_missing g v = elim (Bool-cases (has g.vertices v)) [
    | inl old ↦ rw old refl
    | inr fresh ↦ rw fresh refl
  ]

  Holds-clone_sets :
      (m : SetMap A) (vs : List A) (acc : SetMap A) {W : A → Type 0} {R : A → A → Type 0}
      → ((x : A) → Distinct (set_at m x))
      → ((x y : A) → In y (set_at m x) ↔ R x y)
      → Holds acc W (λ x y. R x y × W x)
      → Holds (clone_sets m vs acc) (λ x. W x ⊎ In x vs) (λ x y. R x y × (W x ⊎ In x vs))
  unfolding clone_sets
  Holds-clone_sets m [] acc d rel h =
      Holds-ext h (λ x. ground arith)
        (λ x y. ((λ (r, w). (r, inl w)), λ (r, w). (r, elim w [ inl k ↦ k | inr n ↦ absurd n ])))
  Holds-clone_sets m (v ∷ vs) acc {W} {R} d rel h =
      let (d', iff) = clone_lem (set_at m v) in
      Holds-ext
        (Holds-clone_sets m vs (put_set acc v (some (clone (set_at m v)))) d rel (
          Holds-put_set acc v (some (clone (set_at m v))) {V' = λ x. W x ⊎ (x ≡ v)}
            {R' = λ x y. R x y × (W x ⊎ (x ≡ v))} h (λ k. inr refl, λ k. refl) d'
            (λ w.
              ((λ i. ((rel v w).0 ((iff w).0 i), inr refl)), λ (r, _). (iff w).1 ((rel v w).1 r)))
            (λ x apart. (inl, λ k. elim k [ inl i ↦ i | inr q ↦ absurd (apart q) ]))
            (λ x y apart. (
              (λ (r, w). (r, inl w)),
              λ (r, w). (r, elim w [ inl k ↦ k | inr q ↦ absurd (apart q) ]),
            ))))
        (λ x. or_assoc) (λ x y. ((λ (r, w). (r, or_assoc.0 w)), λ (r, w). (r, or_assoc.1 w)))

  link_lem :
      (g : Graph A) (u v : A) (from to : SetMap A)
      → add_at g.from u v ≡ some from
      → add_at g.to v u ≡ some to
      → link g u v ≡ some (record { vertices = g.vertices; from = from; to = to })
  unfolding link
  link_lem g u v from to added_from added_to = rw (link, added_from, added_to) refl

  -- Both ends of a new edge are vertices from then on.
  pub add_edge-Represents :
      (g : Graph A) {V : A → Type 0} {E : A → A → Type 0} (u v : A)
      → Represents g V E
      → same u v ≡ false
      → (g' : Graph A) × (add_edge g u v ≡ some g')
        × Represents g' (λ x. (V x ⊎ (x ≡ u)) ⊎ (x ≡ v)) (λ x y. E x y ⊎ ((x ≡ u) × (y ≡ v)))
  unfolding add_edge
  add_edge-Represents g u v h apart =
      let g1 = add_vertex g u in
      let h1 = add_vertex-Represents g h u in
      let g2 = add_vertex g1 v in
      let h2 = add_vertex-Represents g1 h1 v in
      let (from, added_from, out') = Holds-add_at g2.from u v h2.outgoing (inl (inr refl)) in
      let (to, added_to, in') = Holds-add_at g2.to v u h2.incoming (inr refl) in
      (
        record { vertices = g2.vertices; from = from; to = to },
        rw (apart, add_missing g u, add_missing g1 v) (link_lem g2 u v from to added_from added_to),
        record {
          distinct = h2.distinct;
          members = h2.members;
          outgoing = out';
          incoming =
              Holds-ext in' (λ x. iff_refl)
                (λ x y. (
                  (λ r. elim r [ inl k ↦ inl k | inr (p, q) ↦ inr (q, p) ]),
                  λ r. elim r [ inl k ↦ inl k | inr (q, p) ↦ inr (p, q) ],
                ));
        },
      )

  module _ (g : Graph A) {V : A → Type 0} {E : A → A → Type 0} (h : Represents g V E) where
    transposed :
        (m : SetMap A) {R : A → A → Type 0}
        → Holds m V R
        → Holds (clone_sets m g.vertices (λ v. none)) V R
    transposed m h' =
        Holds-ext
          (Holds-clone_sets m g.vertices (λ v. none) {W = λ x. ⊥} h'.distinct h'.related
            (record {
              keyed = λ v. ground arith;
              distinct = λ v. tt;
              related = λ v w. (λ i. absurd i, λ (_, n). n);
            }))
          (λ x. (
            (λ k. elim k [ inl n ↦ absurd n | inr i ↦ (h.members x).0 i ]),
            λ i. inr ((h.members x).1 i),
          ))
          (λ x y. ((λ (r, _). r), λ r. (r, inr ((h.members x).1 (Holds-start m x y h' r)))))

    -- The transposed graph has the same vertices and every edge the other way round.
    pub transpose-Represents : Represents (transpose g) V (λ x y. E y x)
    unfolding transpose
    transpose-Represents =
        let (d, iff) = clone_lem g.vertices in
        record {
          distinct = d;
          members = λ v. iff_trans (iff v) (h.members v);
          outgoing = transposed g.to h.incoming;
          incoming = transposed g.from h.outgoing;
        }

  -- Of a graph with given vertices and edges, Add has one vertex more, Remove one less and none of
  -- its edges, AddEdge an edge between two different vertices more and its ends, RemoveEdge one edge
  -- less, and Transpose every edge the other way round; AddEdge does not panic.
  pub operations_lem :
      (g : Graph A) {V : A → Type 0} {E : A → A → Type 0} (u v : A)
      → Represents g V E
      → same u v ≡ false
      → Represents (add_vertex g v) (λ x. V x ⊎ (x ≡ v)) E
        × Represents
            (remove_vertex g v)
            (λ x. V x × (x ≡ v → ⊥))
            (λ x y. E x y × (x ≡ v → ⊥) × (y ≡ v → ⊥))
        × ((g' : Graph A) × (add_edge g u v ≡ some g')
            × Represents g' (λ x. (V x ⊎ (x ≡ u)) ⊎ (x ≡ v)) (λ x y. E x y ⊎ ((x ≡ u) × (y ≡ v))))
        × Represents (remove_edge g u v) V (λ x y. E x y × ((x ≡ u) × (y ≡ v) → ⊥))
        × Represents (transpose g) V (λ x y. E y x)
  operations_lem g u v h apart = (
    add_vertex-Represents g h v,
    remove_vertex-Represents g h v,
    add_edge-Represents g u v h apart,
    remove_edge-Represents g h u v,
    transpose-Represents g h,
  )
