-- ===== src/Graph/Search/Correct.antt =====
-- BFS and BFSReverse of lib/graph.go against reachability.
use paxi.Common.{
  ℕ, zero, suc, ◌+◌, ◌≤◌, ◌≡◌, ◌↔◌, ◌⊎◌, inl, inr, refl, sym, ap, subst, ◌∙◌, true, false, not,
  Option, some, List, [], ◌∷◌, ◌++◌, append_assoc, append-nil, if◌then◌else◌, Eq, same, same_self,
  same_iff, same→eq, length, length-append, In, Distinct, count, count_less, count_le_length,
  Bool-cases, arith, iff_trans,
}
use paxi.Set.{In-append, Distinct-snoc}
use paxi.Graph.{Graph, out, into}
use paxi.Graph.Search.{Search, scan, search_loop, search_from, bfs, bfs_reverse}
use paxi.Graph.Abstract.{Holds-start}
use paxi.Graph.Refine.{Represents}

-- The walks from a vertex.
pub data Reach {A : Type 0} (E : A → A → Type 0) (v : A) : A → Type 0 where
  here : Reach E v v
  step : {u w : A} → Reach E v u → E u w → Reach E v w

pub List-cases :
    {A : Type 0} (xs : List A) → (xs ≡ []) ⊎ ((x : A) × (rest : List A) × (xs ≡ x ∷ rest))
List-cases [] = inl refl
List-cases (x ∷ xs) = inr (x, xs, refl)

module _ {A : Type 0} ⦃e : Eq A⦄ (E : A → A → Type 0) (v : A) where
  -- What has been listed and what waits are the visited vertices, each once.
  record Visits (s : Search A) : Type 0 where
    marked : (w : A) → In w (s.result ++ s.queue) ↔ (s.visited w ≡ true)
    once : Distinct (s.result ++ s.queue)
    sound : (w : A) → s.visited w ≡ true → Reach E v w

  visit : Search A → A → Search A
  visit s t = if s.visited t then s else record s {
    visited = λ w. if same t w then true else s.visited w;
    queue = s.queue ++ t ∷ [];
  }

  visit-Visits : (s : Search A) (t : A) → Visits s → Reach E v t → Visits (visit s t)
  unfolding visit
  visit-Visits s t h reach = elim (Bool-cases (s.visited t)) [
    | inl old ↦ rw old h
    | inr new ↦ rw new (record {
      marked = λ w.
          subst (λ l. In w l ↔ ((if same t w then true else s.visited w) ≡ true))
            (append_assoc s.result s.queue (t ∷ []))
            (ground (arith, In-append (s.result ++ s.queue) (t ∷ []) w, h.marked w, same_iff t w));
      once =
          subst Distinct (append_assoc s.result s.queue (t ∷ []))
            (Distinct-snoc (s.result ++ s.queue) t h.once (λ i. cc ((h.marked t).0 i, new)));
      sound = λ w. elim (Bool-cases (same t w)) [
        | inl here' ↦ rw here' (λ _. subst (Reach E v) (same→eq t w here') reach)
        | inr apart ↦ rw apart (h.sound w)
      ];
    })
  ]

  -- The vertices of `us` that have not been visited, and the length of the queue.
  work : List A → Search A → ℕ
  work us s = count (λ w. not (s.visited w)) us + length s.queue

  visit-work : (us : List A) (s : Search A) (t : A) → In t us → work us (visit s t) ≤ work us s
  unfolding visit work
  visit-work us s t i = elim (Bool-cases (s.visited t)) [
    | inl old ↦ rw old (omega arith)
    | inr new ↦
        let less =
          count_less (λ w. not (s.visited w)) (λ w. not (if same t w then true else s.visited w)) t
            us (λ w. ground arith) i (ground arith) (ground (arith, same_self t)) in
        rw new (omega (arith, less, length-append s.queue (t ∷ [])))
  ]

  visit_marks :
      (s : Search A) (t w : A) → ((visit s t).visited w ≡ true) ↔ ((s.visited w ≡ true) ⊎ (w ≡ t))
  unfolding visit
  visit_marks s t w = elim (Bool-cases (s.visited t)) [
    | inl old ↦ rw old (inl, λ k. elim k [ inl i ↦ i | inr q ↦ ap s.visited q ∙ old ])
    | inr new ↦ rw new (ground (arith, same_iff t w))
  ]

  -- What the loop over the neighbours `ts` of a listed vertex does.
  record Scans (us : List A) (s s' : Search A) (ts : List A) : Type 0 where
    visits : Visits s'
    kept : s'.result ≡ s.result
    less : work us s' ≤ work us s
    marks : (w : A) → (s'.visited w ≡ true) ↔ ((s.visited w ≡ true) ⊎ In w ts)

  visit-result : (s : Search A) (t : A) → (visit s t).result ≡ s.result
  unfolding visit
  visit-result s t = elim (Bool-cases (s.visited t)) [
    | inl old ↦ rw old refl
    | inr new ↦ rw new refl
  ]

  scan-Scans :
      (us : List A) (s : Search A) (ts : List A)
      → Visits s
      → ((t : A) → In t ts → Reach E v t)
      → ((t : A) → In t ts → In t us)
      → Scans us s (scan s ts) ts
  unfolding scan visit
  scan-Scans us s [] h reach inside = record {
    visits = h;
    kept = refl;
    less = omega arith;
    marks = λ w. ground arith;
  }
  scan-Scans us s (t ∷ ts) h reach inside =
      let rest =
        scan-Scans us (visit s t) ts (visit-Visits s t h (reach t (inl refl)))
          (λ x i. reach x (inr i)) (λ x i. inside x (inr i)) in
      let first = visit-work us s t (inside t (inl refl)) in
      record {
        visits = rest.visits;
        kept = rest.kept ∙ visit-result s t;
        less = omega (arith, rest.less, first);
        marks = λ w. iff_trans (rest.marks w) (ground (arith, visit_marks s t w));
      }

  module _ (next : A → List A) (next_iff : (u w : A) → In w (next u) ↔ E u w) where
    -- The neighbours of the listed vertices are visited.
    Closed : Search A → Type 0
    Closed s = (u w : A) → In u s.result → E u w → s.visited w ≡ true

    -- One round of the loop over the queue.
    search_step :
        (us : List A) (s : Search A) (x : A) (rest : List A)
        → ((u w : A) → E u w → In w us)
        → Visits s
        → Closed s
        → s.visited v ≡ true
        → s.queue ≡ x ∷ rest
        → let s' = scan (record s { result = s.result ++ x ∷ []; queue = rest }) (next x) in
          Visits s' × Closed s' × (s'.visited v ≡ true) × (suc (work us s') ≤ work us s)
    unfolding Closed work
    search_step us s x rest inside h closed source q =
        let s1 : Search A = record s { result = s.result ++ x ∷ []; queue = rest } in
        let order : s1.result ++ s1.queue ≡ s.result ++ s.queue =
          append_assoc s.result (x ∷ []) rest ∙ ap (λ l. s.result ++ l) (sym q) in
        let h1 : Visits s1 = record {
          marked = λ w. subst (λ l. In w l ↔ (s.visited w ≡ true)) (sym order) (h.marked w);
          once = subst Distinct (sym order) h.once;
          sound = h.sound;
        } in
        let x_in : s.visited x ≡ true = (h1.marked x).0 (
          (In-append s1.result rest x).1
            (inl ((In-append s.result (x ∷ []) x).1 (inr (inl refl))))) in
        let scanned =
          scan-Scans us s1 (next x) h1 (λ t i. step (h.sound x x_in) ((next_iff x t).0 i))
            (λ t i. inside x t ((next_iff x t).0 i)) in
        (
          scanned.visits,
          λ u w i r.
              (scanned.marks w).1
                (elim ((In-append s.result (x ∷ []) u).0 (subst (In u) scanned.kept i)) [
                  | inl old ↦ inl (closed u w old r)
                  | inr new ↦ inr (
                      (next_iff x w).1
                        (elim new [ inl p ↦ subst (λ z. E z w) p r | inr n ↦ absurd n ]))
                ]),
          (scanned.marks v).1 (inl source),
          omega (arith, scanned.less, ap length q),
        )

    -- With an empty queue the listed vertices are all that can be reached.
    complete :
        (s : Search A)
        → Visits s
        → Closed s
        → s.visited v ≡ true
        → s.queue ≡ []
        → (w : A) → Reach E v w
        → s.visited w ≡ true
    unfolding Closed
    complete s h closed source q w here = source
    complete s h closed source q w (step {u} reach r) =
        let u_in : In u s.result =
          subst (In u) (ap (λ l. s.result ++ l) q ∙ append-nil s.result)
            ((h.marked u).1 (complete s h closed source q u reach)) in
        closed u w u_in r

    -- What the search returns.
    Found : Option (List A) → Type 0
    Found o = (r : List A) × (o ≡ some r) × Distinct r × ((w : A) → In w r ↔ Reach E v w)

    finish :
        (s : Search A) (o : Option (List A))
        → Visits s
        → Closed s
        → s.visited v ≡ true
        → s.queue ≡ []
        → o ≡ some s.result
        → Found o
    unfolding Found
    finish s o h closed source empty ends =
        let order : s.result ++ s.queue ≡ s.result =
          ap (λ l. s.result ++ l) empty ∙ append-nil s.result in
        (
          s.result,
          ends,
          subst Distinct order h.once,
          λ w. (
            (λ i. h.sound w ((h.marked w).0 (subst (In w) (sym order) i))),
            λ r. subst (In w) order ((h.marked w).1 (complete s h closed source empty w r)),
          ),
        )

    loop_lem :
        (us : List A) (fuel : ℕ) (s : Search A)
        → ((u w : A) → E u w → In w us)
        → Visits s
        → Closed s
        → s.visited v ≡ true
        → work us s ≤ fuel
        → Found (search_loop next fuel s)
    unfolding search_loop work
    loop_lem us zero s inside h closed source enough = elim (List-cases s.queue) [
      | inl empty ↦ finish s _ h closed source empty (rw (search_loop, empty) refl)
      | inr (x, rest, q) ↦ absurd (omega (arith, ap length q, enough))
    ]
    loop_lem us (suc fuel) s inside h closed source enough = elim (List-cases s.queue) [
      | inl empty ↦ finish s _ h closed source empty (rw (search_loop, empty) refl)
      | inr (x, rest, q) ↦
          let s' = scan (record s { result = s.result ++ x ∷ []; queue = rest }) (next x) in
          let (h', closed', source', less) = search_step us s x rest inside h closed source q in
          rw (search_loop, q)
            (loop_lem us fuel s' inside h' closed' source' (omega (arith, less, enough)))
    ]

    -- The search from `v` among the vertices `us`.
    search_from_lem :
        (us : List A) → ((u w : A) → E u w → In w us) → Found (search_from next (suc (length us)) v)
    unfolding search_from Closed work
    search_from_lem us inside =
        let s : Search A = record {
          result = [];
          visited = λ w. if same v w then true else false;
          queue = v ∷ [];
        } in
        let start : Visits s = record {
          marked = λ w. ground (arith, same_iff v w);
          once = ((λ i. i), tt);
          sound = λ w m. subst (Reach E v) (same→eq v w (ground arith)) here;
        } in
        loop_lem us (suc (length us)) s inside start (λ u w i r. absurd i)
          (ground (arith, same_self v))
          (omega (arith, count_le_length (λ w. not (if same v w then true else false)) us))

module _ {A : Type 0} ⦃e : Eq A⦄ where
  -- The breadth first search of a graph ends, and lists each vertex that can be reached from the
  -- source along the edges, the source too, exactly once; the reverse search those from which the
  -- source can be reached.
  pub bfs-Reach :
      (g : Graph A) {V : A → Type 0} {E : A → A → Type 0}
      → Represents g V E
      → (v : A)
      → ((r : List A) × (bfs g v ≡ some r) × Distinct r × ((w : A) → In w r ↔ Reach E v w))
        × ((r : List A) × (bfs_reverse g v ≡ some r)
            × Distinct r
            × ((w : A) → In w r ↔ Reach (λ x y. E y x) v w))
  unfolding bfs bfs_reverse Found
  bfs-Reach g {V} {E} h v = (
    search_from_lem E v (out g) h.outgoing.related g.vertices
        (λ u w r. (h.members w).1 (Holds-start g.to w u h.incoming r)),
    search_from_lem (λ x y. E y x) v (into g) h.incoming.related g.vertices
        (λ u w r. (h.members w).1 (Holds-start g.from w u h.outgoing r)),
  )
