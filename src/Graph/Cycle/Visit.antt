-- ===== src/Graph/Cycle/Visit.antt =====
-- What a visit of lib/graph.go leaves of the colors.
use paxi.Common.{
  ℕ, zero, suc, ◌≤◌, ◌≡◌, ◌↔◌, ◌⊎◌, inl, inr, refl, sym, ap, subst, ◌∙◌, Bool, true, false, Option,
  some, List, [], ◌∷◌, Eq, same, same_self, same→eq, not_same, In, count, count_le, count_less,
  Bool-cases, arith, iff_refl, iff_trans,
}
use paxi.Graph.Cycle.{Color, white, gray, black, Colors, paint, visit, visit_all}
use paxi.Graph.Search.Correct.{Reach, here, step}

pub Color-cases : (k : Color) → (k ≡ white) ⊎ ((k ≡ gray) ⊎ (k ≡ black))
Color-cases white = inl refl
Color-cases gray = inr (inl refl)
Color-cases black = inr (inr refl)

white_gray : white ≡ gray → ⊥
white_gray h = ground arith

gray_black : gray ≡ black → ⊥
gray_black h = ground arith

white_black : white ≡ black → ⊥
white_black h = ground arith

abbrev pub is_white : Color → Bool
is_white white = true
is_white gray = false
is_white black = false

module _ {A : Type 0} ⦃e : Eq A⦄ (E : A → A → Type 0) where
  -- A walk of at least one edge.
  abbrev pub Walk : A → A → Type 0
  Walk x y = (w : A) × Reach E x w × E w y

  -- The black vertices are closed under the edges, and none of them is on a cycle.
  pub record Finished (c : Colors A) : Type 0 where
    pub closed : (x y : A) → c x ≡ black → E x y → c y ≡ black
    pub acyclic : (x : A) → c x ≡ black → Walk x x → ⊥

  -- From colors `c` to colors `c'`, with `us` black.
  pub record Advances (c c' : Colors A) (us : List A) : Type 0 where
    pub finished : Finished c'
    pub kept : (x : A) → c x ≡ black → c' x ≡ black
    pub grays : (x : A) → (c' x ≡ gray) ↔ (c x ≡ gray)
    pub whites : (x : A) → is_white (c' x) ≡ true → is_white (c x) ≡ true
    pub passed : (x : A) → In x us → c' x ≡ black

  -- A gray vertex of the colors is on a cycle.
  abbrev pub OnCycle : Colors A → Type 0
  OnCycle c = (x : A) × (c x ≡ gray) × Walk x x

  -- What a visit may return.
  abbrev pub Visited : Colors A → List A → Option (Bool × Colors A) → Type 0
  Visited c us o =
      ((c' : Colors A) × (o ≡ some (true, c')) × OnCycle c')
      ⊎ ((c' : Colors A) × (o ≡ some (false, c')) × Advances c c' us)

  closed_walk : (c : Colors A) (x y : A) → Finished c → c x ≡ black → Reach E x y → c y ≡ black
  closed_walk c x y f b here = b
  closed_walk c x y f b (step {u} r edge) = f.closed u y (closed_walk c x u f b r) edge

  -- Whatever can be reached from a vertex with black neighbours is the vertex itself or black.
  black_around :
      (c : Colors A) (v w : A)
      → Finished c
      → ((y : A) → E v y → c y ≡ black)
      → Reach E v w
      → (w ≡ v) ⊎ (c w ≡ black)
  black_around c v w f near here = inl refl
  black_around c v w f near (step {u} r edge) = elim (black_around c v u f near r) [
    | inl q ↦ inr (near w (subst (λ z. E z w) q edge))
    | inr b ↦ inr (f.closed u w b edge)
  ]

  -- Then the vertex is on no cycle, unless it is black itself.
  no_own_cycle :
      (c : Colors A) (v : A) → Finished c → ((y : A) → E v y → c y ≡ black) → Walk v v → c v ≡ black
  no_own_cycle c v f near (w, r, edge) = elim (black_around c v w f near r) [
    | inl q ↦ near v (subst (λ z. E z v) q edge)
    | inr b ↦ f.closed w v b edge
  ]

  -- The last step of a visit without a cycle: its vertex turns black.
  blacken :
      (c c' : Colors A) (v : A) (us : List A)
      → ((y : A) → E v y → In y us)
      → c v ≡ white
      → Advances (paint c v gray) c' us
      → Advances c (paint c' v black) (v ∷ [])
  blacken c c' v us all was a = record {
    finished = record {
      closed = λ x y. elim (Bool-cases (same v y)) [
        | inl q ↦ rw q (λ _ _. refl)
        | inr q ↦ rw q (elim (Bool-cases (same v x)) [
          | inl p ↦
              rw p (λ _ edge. a.passed y (all y (subst (λ z. E z y) (sym (same→eq v x p)) edge)))
          | inr p ↦ rw p (λ b edge. a.finished.closed x y b edge)
        ])
      ];
      acyclic = λ x. elim (Bool-cases (same v x)) [
        | inl p ↦ rw p (λ _ walk.
            let here : v ≡ x = same→eq v x p in
            let turned =
              no_own_cycle c' v a.finished (λ y edge. a.passed y (all y edge))
                (subst (λ z. Walk z z) (sym here) walk) in
            gray_black (sym ((a.grays v).1 (rw (same_self v) refl)) ∙ turned))
        | inr p ↦ rw p (a.finished.acyclic x)
      ];
    };
    kept = λ x b. elim (Bool-cases (same v x)) [
      | inl q ↦ rw q refl
      | inr q ↦ rw q (a.kept x (rw q b))
    ];
    grays = λ x. elim (Bool-cases (same v x)) [
      | inl q ↦ rw q (
        (λ n. absurd (gray_black (sym n))),
        λ g. absurd (white_gray (sym was ∙ (ap c (same→eq v x q) ∙ g))),
      )
      | inr q ↦ rw q (rw q at (a.grays x))
    ];
    whites = λ x. elim (Bool-cases (same v x)) [
      | inl q ↦ rw q (λ n. absurd (ground arith))
      | inr q ↦ rw q (rw q at (a.whites x))
    ];
    passed = λ x i. elim (Bool-cases (same v x)) [
      | inl q ↦ rw q refl
      | inr q ↦ absurd (elim i [ inl p ↦ not_same v x q p | inr n ↦ n ])
    ];
  }

  -- Nothing is finished by the start of a visit.
  paint_gray : (c : Colors A) (v : A) → Finished c → c v ≡ white → Finished (paint c v gray)
  paint_gray c v f is_w = record {
    closed = λ x y. elim (Bool-cases (same v x)) [
      | inl p ↦ rw p (λ n. absurd (gray_black n))
      | inr p ↦ elim (Bool-cases (same v y)) [
        | inl q ↦
            rw (p, q)
              (λ b edge.
                absurd (white_black (sym is_w ∙ (ap c (same→eq v y q) ∙ f.closed x y b edge))))
        | inr q ↦ rw (p, q) (f.closed x y)
      ]
    ];
    acyclic = λ x. elim (Bool-cases (same v x)) [
      | inl p ↦ rw p (λ n. absurd (gray_black n))
      | inr p ↦ rw p (f.acyclic x)
    ];
  }

  -- What a visit of a white vertex returns, on colors with at most `n` white vertices.
  abbrev pub Visits : List A → ℕ → (A → Colors A → Option (Bool × Colors A)) → Type 0
  Visits us n one =
      (v : A) (c : Colors A)
      → Finished c
      → In v us
      → c v ≡ white
      → count (λ x. is_white (c x)) us ≤ n
      → ((x : A) → c x ≡ gray → Walk x v)
      → Visited c (v ∷ []) (one v c)

  Advances-trans :
      {c c' c'' : Colors A} {us vs ws : List A}
      → Advances c c' us
      → Advances c' c'' vs
      → ((x : A) → In x ws → (In x us ⊎ In x vs))
      → Advances c c'' ws
  Advances-trans a b split = record {
    finished = b.finished;
    kept = λ x k. b.kept x (a.kept x k);
    grays = λ x. iff_trans (b.grays x) (a.grays x);
    whites = λ x k. a.whites x (b.whites x k);
    passed = λ x i. elim (split x i) [ inl j ↦ b.kept x (a.passed x j) | inr j ↦ b.passed x j ];
  }

  pub then_rest :
      {c c' : Colors A} {v : A} {vs : List A} {o : Option (Bool × Colors A)}
      → Advances c c' (v ∷ [])
      → Visited c' vs o
      → Visited c (v ∷ vs) o
  then_rest a (inl found) = inl found
  then_rest {v} {vs} a (inr (c'', returns, b)) =
      inr (c'', returns, Advances-trans a b (λ x i. elim i [ inl q ↦ inl (inl q) | inr j ↦ inr j ]))

  pub Advances-refl : (c : Colors A) (v : A) → Finished c → c v ≡ black → Advances c c (v ∷ [])
  Advances-refl c v f b = record {
    finished = f;
    kept = λ x k. k;
    grays = λ x. iff_refl;
    whites = λ x k. k;
    passed = λ x i. elim i [ inl q ↦ ap c q ∙ b | inr n ↦ absurd n ];
  }

  pub visit_all_lem :
      (us : List A) (n : ℕ) (one : A → Colors A → Option (Bool × Colors A)) (vs : List A)
      (c : Colors A)
      → Visits us n one
      → Finished c
      → ((v : A) → In v vs → In v us)
      → count (λ x. is_white (c x)) us ≤ n
      → ((x v : A) → In v vs → c x ≡ gray → Walk x v)
      → Visited c vs (visit_all one vs c)
  unfolding visit_all
  visit_all_lem us n one [] c ones f inside enough walks = inr (
    c,
    refl,
    record {
      finished = f;
      kept = λ x k. k;
      grays = λ x. iff_refl;
      whites = λ x k. k;
      passed = λ x i. absurd i;
    },
  )
  visit_all_lem us n one (v ∷ vs) c ones f inside enough walks = elim (Color-cases (c v)) [
    | inr (inl is_gray) ↦
        rw (visit_all, is_gray) (inl (c, refl, (v, is_gray, walks v v (inl refl) is_gray)))
    | inr (inr is_black) ↦
        rw (visit_all, is_black)
          (then_rest (Advances-refl c v f is_black) (
            visit_all_lem us n one vs c ones f (λ x i. inside x (inr i)) enough
              (λ x y i g. walks x y (inr i) g)))
    | inl is_w ↦
        elim (ones v c f (inside v (inl refl)) is_w enough (λ x g. walks x v (inl refl) g)) [
          | inl (c', returns, found) ↦ rw (visit_all, is_w, returns) (inl (c', refl, found))
          | inr (c', returns, a) ↦
              rw (visit_all, is_w, returns)
                (then_rest a (
                  visit_all_lem us n one vs c' ones a.finished (λ x i. inside x (inr i))
                    (omega (
                      arith,
                      enough,
                      count_le (λ x. is_white (c x)) (λ x. is_white (c' x)) us a.whites,
                    ))
                    (λ x y i g. walks x y (inr i) ((a.grays x).0 g))))
        ]
  ]

  module _ (next : A → List A) (next_iff : (u w : A) → In w (next u) ↔ E u w) where
    pub visit_lem :
        (us : List A) (n : ℕ) → ((u w : A) → E u w → In w us) → Visits us n (visit next n)
    unfolding visit
    visit_lem us zero inside v c f i is_w enough walks =
        let some_white =
          count_less (λ x. is_white (c x)) (λ x. false) v us (λ x n. absurd (ground arith)) i
            (rw is_w refl) refl in
        absurd (omega (arith, some_white, enough))
    visit_lem us (suc n) inside v c f i is_w enough walks =
        let c1 = paint c v gray in
        let f1 : Finished c1 = paint_gray c v f is_w in
        let fewer : count (λ x. is_white (c1 x)) us ≤ n = omega (
          arith,
          enough,
          count_less (λ x. is_white (c x)) (λ x. is_white (c1 x)) v us
              (λ x. elim (Bool-cases (same v x)) [
                | inl q ↦ rw q (λ n. absurd (ground arith))
                | inr q ↦ rw q (λ k. k)
              ])
              i (rw is_w refl) (rw (same_self v) refl),
        ) in
        let onward : (x y : A) → In y (next v) → c1 x ≡ gray → Walk x y = λ x y j.
          elim (Bool-cases (same v x)) [
            | inl q ↦ rw q (λ _. (x, here, subst (λ z. E z y) (same→eq v x q) ((next_iff v y).0 j)))
            | inr q ↦
                rw q (λ g. let (w, r, edge) = walks x g in (v, step r edge, (next_iff v y).0 j))
          ] in
        elim (visit_all_lem us n (visit next n) (next v) c1 (visit_lem us n inside) f1
          (λ x j. inside v x ((next_iff v x).0 j)) fewer onward) [
            | inl (c', returns, found) ↦ rw (visit, returns) (inl (c', refl, found))
            | inr (c', returns, a) ↦
                rw (visit, returns)
                  (inr (
                    paint c' v black,
                    refl,
                    blacken c c' v (next v) (λ y edge. (next_iff v y).1 edge) is_w a,
                  ))
          ]
