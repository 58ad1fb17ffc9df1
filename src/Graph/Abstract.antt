-- ===== src/Graph/Abstract.antt =====
-- The graphs of lib/graph.go as an abstract graph, a set of vertices and a relation of edges, and
-- what each operation does to it.
use paxi.Common.{
  Bool, true, false, ◌≡◌, ◌↔◌, ◌⊎◌, inl, inr, refl, subst, Option, none, some, List, [], ◌∷◌, In,
  Distinct, Eq, same, same→eq, not_same, iff_trans, iff_refl, Bool-cases, Option-cases, arith,
}
use paxi.Set.{Set, add, remove, In-add, In-remove, Distinct-add, Distinct-remove}
use paxi.Graph.{SetMap, or_nil, set_at, put_set, add_at, remove_at, remove_all}

abbrev pub known : {A : Type 0} → Option A → Bool
known none = false
known (some a) = true

-- A map has a set for exactly the vertices in `V`, and the sets are those of the relation `R`.
pub record Holds {A : Type 0} (m : SetMap A) (V : A → Type 0) (R : A → A → Type 0) : Type 0 where
  pub keyed : (v : A) → (known (m v) ≡ true) ↔ V v
  pub distinct : (v : A) → Distinct (set_at m v)
  pub related : (v w : A) → In w (set_at m v) ↔ R v w

module _ {A : Type 0} ⦃e : Eq A⦄ where
  -- One key changes, and with it the part of `V` and `R` that is about this key.
  pub Holds-put_set :
      (m : SetMap A) (k : A) (o : Option (Set A)) {V V' : A → Type 0} {R R' : A → A → Type 0}
      → Holds m V R
      → (known o ≡ true) ↔ V' k
      → Distinct (or_nil o)
      → ((w : A) → In w (or_nil o) ↔ R' k w)
      → ((v : A) → (v ≡ k → ⊥) → V v ↔ V' v)
      → ((v w : A) → (v ≡ k → ⊥) → R v w ↔ R' v w)
      → Holds (put_set m k o) V' R'
  Holds-put_set m k o {V} {V'} {R} {R'} h key distinct related keep_v keep_r = record {
    keyed = λ v. elim (Bool-cases (same k v)) [
      | inl here ↦ rw here (subst (λ x. (known o ≡ true) ↔ V' x) (same→eq k v here) key)
      | inr apart ↦ rw apart (iff_trans (h.keyed v) (keep_v v (not_same k v apart)))
    ];
    distinct = λ v. elim (Bool-cases (same k v)) [
      | inl here ↦ rw here distinct
      | inr apart ↦ rw apart (h.distinct v)
    ];
    related = λ v w. elim (Bool-cases (same k v)) [
      | inl here ↦ rw here (subst (λ x. In w (or_nil o) ↔ R' x w) (same→eq k v here) (related w))
      | inr apart ↦ rw apart (iff_trans (h.related v w) (keep_r v w (not_same k v apart)))
    ];
  }

  -- An element of a set has a vertex with this set.
  pub Holds-start :
      (m : SetMap A) {V : A → Type 0} {R : A → A → Type 0} (v w : A) → Holds m V R → R v w → V v
  Holds-start m v w h r = elim (Option-cases (m v)) [
    | inl none_there ↦ absurd (subst (λ o. In w (or_nil o)) none_there ((h.related v w).1 r))
    | inr (s, there) ↦ (h.keyed v).0 (rw there refl)
  ]

  -- A further vertex, without edges.
  pub Holds-new :
      (m : SetMap A) {V : A → Type 0} {R : A → A → Type 0} (v : A)
      → Holds m V R
      → (V v → ⊥)
      → Holds (put_set m v (some [])) (λ x. V x ⊎ (x ≡ v)) R
  Holds-new m v h fresh =
      Holds-put_set m v (some []) h (λ k. inr refl, λ k. refl) tt
        (λ w. (λ i. absurd i, λ r. fresh (Holds-start m v w h r)))
        (λ x apart. (inl, λ k. elim k [ inl i ↦ i | inr q ↦ absurd (apart q) ]))
        (λ x w apart. (λ r. r, λ r. r))

  -- A further edge from a vertex that is there.
  pub Holds-add_at :
      (m : SetMap A) {V : A → Type 0} {R : A → A → Type 0} (u w : A)
      → Holds m V R
      → V u
      → (m' : SetMap A) × (add_at m u w ≡ some m') × Holds m' V (λ x y. R x y ⊎ ((x ≡ u) × (y ≡ w)))
  unfolding add_at
  Holds-add_at m u w h in_v = elim (Option-cases (m u)) [
    | inl missing ↦ let never = rw missing at ((h.keyed u).1 in_v) in absurd (ground arith)
    | inr (s, there) ↦ (
      put_set m u (some (add s w)),
      rw (add_at, there) refl,
      Holds-put_set m u (some (add s w)) h (λ k. in_v, λ k. refl)
          (Distinct-add s w (rw there at (h.distinct u)))
          (λ y.
            let rel = rw there at (h.related u y) in
            (
              (λ i. elim ((In-add s w y).0 i) [ inl j ↦ inl (rel.0 j) | inr q ↦ inr (refl, q) ]),
              λ r. (In-add s w y).1 (elim r [ inl k ↦ inl (rel.1 k) | inr (_, q) ↦ inr q ]),
            ))
          (λ x apart. (λ i. i, λ i. i))
          (λ x y apart. (inl, λ k. elim k [ inl r ↦ r | inr (q, _) ↦ absurd (apart q) ])),
    )
  ]

  -- An element leaves the set of a vertex.
  pub Holds-remove_at :
      (m : SetMap A) {V : A → Type 0} {R : A → A → Type 0} (u w : A)
      → Holds m V R
      → Holds (remove_at m u w) V (λ x y. R x y × ((x ≡ u) × (y ≡ w) → ⊥))
  unfolding remove_at
  Holds-remove_at m u w h = elim (Option-cases (m u)) [
    | inl missing ↦
        rw (remove_at, missing)
          (record {
            keyed = h.keyed;
            distinct = h.distinct;
            related = λ x y. (
              (λ i. (
                (h.related x y).0 i,
                λ (q, _). subst (λ o. In y (or_nil o)) missing (subst (λ z. In y (set_at m z)) q i),
              )),
              λ (r, _). (h.related x y).1 r,
            );
          })
    | inr (s, there) ↦
        rw (remove_at, there)
          (Holds-put_set m u (some (remove s w)) h (λ k. (h.keyed u).0 (rw there refl), λ k. refl)
            (Distinct-remove s w (rw there at (h.distinct u)))
            (λ y.
              let rel = rw there at (h.related u y) in
              (
                (λ i. let (j, other) = (In-remove s w y).0 i in (rel.0 j, λ (_, q). other q)),
                λ (r, other). (In-remove s w y).1 (rel.1 r, λ q. other (refl, q)),
              ))
            (λ x apart. (λ i. i, λ i. i)) (λ x y apart. (λ r. (r, λ (q, _). apart q), λ (r, _). r)))
  ]

  pub Holds-ext :
      {m : SetMap A} {V V' : A → Type 0} {R R' : A → A → Type 0}
      → Holds m V R
      → ((x : A) → V x ↔ V' x)
      → ((x y : A) → R x y ↔ R' x y)
      → Holds m V' R'
  Holds-ext h same_v same_r = record {
    keyed = λ x. iff_trans (h.keyed x) (same_v x);
    distinct = h.distinct;
    related = λ x y. iff_trans (h.related x y) (same_r x y);
  }

  Holds-remove_all :
      (us : List A) (m : SetMap A) {V : A → Type 0} {R : A → A → Type 0} (v : A)
      → Holds m V R
      → Holds (remove_all m us v) V (λ x y. R x y × (In x us × (y ≡ v) → ⊥))
  unfolding remove_all
  Holds-remove_all [] m v h =
      Holds-ext h (λ x. iff_refl) (λ x y. ((λ r. (r, λ (i, _). i)), λ (r, _). r))
  Holds-remove_all (u ∷ us) m v h =
      Holds-ext (Holds-remove_all us (remove_at m u v) v (Holds-remove_at m u v h)) (λ x. iff_refl)
        (λ x y. (
          (λ ((r, one), all). (r, λ (i, q). elim i [ inl p ↦ one (p, q) | inr j ↦ all (j, q) ])),
          λ (r, all). ((r, λ (p, q). all (inl p, q)), λ (j, q). all (inr j, q)),
        ))

  -- A vertex leaves, with its set and from all other sets.
  pub Holds-remove :
      (us : List A) (m : SetMap A) {V : A → Type 0} {R : A → A → Type 0} (v : A)
      → Holds m V R
      → ((x : A) → V x → (x ≡ v → ⊥) → In x us)
      → Holds
          (put_set (remove_all m us v) v none)
          (λ x. V x × (x ≡ v → ⊥))
          (λ x y. R x y × (x ≡ v → ⊥) × (y ≡ v → ⊥))
  Holds-remove us m v h all =
      Holds-put_set (remove_all m us v) v none (Holds-remove_all us m v h)
        (λ k. absurd (ground arith), λ (_, other). absurd (other refl)) tt
        (λ w. (λ i. absurd i, λ (_, other, _). other refl))
        (λ x apart. (λ i. (i, apart), λ (i, _). i))
        (λ x y apart. (
          (λ (r, none_left). (r, apart, λ q. none_left (all x (Holds-start m x y h r) apart, q))),
          λ (r, _, other). (r, λ (_, q). other q),
        ))
