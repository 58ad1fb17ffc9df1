-- ===== src/Queue/Fifo.antt =====
-- The queue of lib/queue.go against a list.
use paxi.Common.{
  ==_self, true, false, ℕ, suc, ◌+◌, ◌-◌, ◌*◌, ◌%◌, ◌≤◌, ◌<◌, ◌≡◌, refl, sym, ap, ◌∙◌, List, [],
  ◌∷◌, ◌++◌, ltb, leb, ◌==◌, length, set, take, drop, replicate, arith, Option, none, some, ◌&&◌,
  Bool-cases, inl, inr, length-set, length-drop, length-replicate, ◌⊎◌,
}
use native.Mathlib.Nat.{mod-eq_of_lt, mod_self}
use paxi.Queue.{Queue, copy, copy_at, new_queue, grow, append, push, pop}
use paxi.Queue.Ring.{
  cell, item, ring, contents, ring_ext, ring_last, item-set, item-drop, item-take, item-copy,
  item-copy_at, get_elem?-item, length-copy, length-copy_at, length-take,
}

-- `(i + 1) % n` for an index `i`.
step_wrap : (n i : ℕ) → i < n → (i + 1) % n ≡ cell n (i + 1)
unfolding cell
step_wrap n i below = elim (Bool-cases (ltb (i + 1) n)) [
  | inl inside ↦ rw inside (mod-eq_of_lt (ground arith))
  | inr last ↦
      let full : n ≡ i + 1 = ground arith in rw last (rw full (mod_self (i + 1) ∙ omega arith))
]

-- `head` and `tail` are indices, and `tail` is `size` cells behind `head`.
pub record IsValid {A : Type 0} (q : Queue A) : Type 0 where
  pub small : q.size ≤ length q.queue
  pub starts : q.head < length q.queue
  pub ends : q.tail ≡ cell (length q.queue) (q.head + q.size)

-- The operations of a queue.
pub data QueueOp (A : Type 0) : Type 0 where
  push_op : A → QueueOp A
  pop_op : QueueOp A

module _ {A : Type 0} (nil : A) where
  -- What the Pops of a sequence of operations give, none on a panic.
  unfoldable pub run : Queue A → List (QueueOp A) → Option (List A)
  run q [] = some []
  run q (push_op e ∷ ops) = elim (push nil q e) [ none ↦ none | some q' ↦ run q' ops ]
  run q (pop_op ∷ ops) = elim (pop nil q) [
    | none ↦ none
    | some (e, q') ↦ elim (run q' ops) [ none ↦ none | some es ↦ some (e ∷ es) ]
  ]

  -- The same of a list, which elements join at the end and leave at the front.
  abbrev pub fifo : List A → List (QueueOp A) → List A
  fifo xs [] = []
  fifo xs (push_op e ∷ ops) = fifo (xs ++ e ∷ []) ops
  fifo [] (pop_op ∷ ops) = nil ∷ fifo [] ops
  fifo (x ∷ xs) (pop_op ∷ ops) = x ∷ fifo xs ops

  -- A doubled array holds the same elements from its start.
  grown_array : List A → ℕ → List A
  grown_array xs h =
      copy_at (length xs - h) (copy (replicate (length xs * 2) nil) (drop h xs)) (take h xs)

  length-grown : (xs : List A) (h : ℕ) → length (grown_array xs h) ≡ length xs * 2
  unfolding grown_array
  length-grown xs h =
      length-copy_at (length xs - h) (copy (replicate (length xs * 2) nil) (drop h xs)) (take h xs)
      ∙ (length-copy (replicate (length xs * 2) nil) (drop h xs)
          ∙ length-replicate (length xs * 2) nil)

  item-grown :
      (xs : List A) (h i : ℕ)
      → h ≤ length xs
      → i < length xs
      → item nil (grown_array xs h) i ≡ item nil xs (cell (length xs) (h + i))
  unfolding grown_array cell
  item-grown xs h i start below =
      let n = length xs in
      let fresh = replicate (n * 2) nil in
      let inside : i < length fresh = omega (arith, length-replicate (n * 2) nil, below) in
      let inside' : i < length (copy fresh (drop h xs)) =
        omega (arith, length-copy fresh (drop h xs), inside) in
      let two = item-copy_at nil (n - h) (copy fresh (drop h xs)) (take h xs) i inside' in
      let one = item-copy nil fresh (drop h xs) i inside in
      elim (Bool-cases (ltb (h + i) n)) [
        | inl e ↦
            let early : leb (n - h) i ≡ false = ground arith in
            let there : ltb i (length (drop h xs)) ≡ true = ground (arith, length-drop h xs) in
            rw e (rw early at two ∙ (rw there at one ∙ item-drop nil h xs i))
        | inr e ↦
            let late : leb (n - h) i ≡ true = ground arith in
            let there : ltb (i - (n - h)) (length (take h xs)) ≡ true =
              ground (arith, length-take h xs start) in
            let same : i - (n - h) ≡ h + i - n = ground arith in
            rw e (
              rw (late, there) at two
              ∙ (item-take nil h xs (i - (n - h)) (ground arith) ∙ ap (item nil xs) same))
      ]

  grow_lem :
      (q : Queue A)
      → IsValid q
      → 0 < q.size
      → q.size ≡ length q.queue
      → (q' : Queue A) × (grow nil q ≡ some q')
        × IsValid q'
        × (q'.size < length q'.queue)
        × (contents nil q' ≡ contents nil q)
  unfolding grow contents cell grown_array
  grow_lem q v some_in full =
      let xs = q.queue in
      let n = length xs in
      let inside : ltb n q.head ≡ false = ground (arith, v.starts) in
      let double = length-grown xs q.head in
      let q' : Queue A = record {
        queue = grown_array xs q.head;
        size = q.size;
        head = 0;
        tail = n;
      } in
      (
        q',
        rw inside refl,
        record {
          small = omega (arith, double, full);
          starts = omega (arith, double, full, some_in);
          ends = ground (arith, double, full, some_in);
        },
        omega (arith, double, full, some_in),
        ring_ext nil (grown_array xs q.head) xs 0 q.head q.size (λ i below.
            let i_below : i < n = omega (arith, below, full) in
            let here : cell (length (grown_array xs q.head)) (0 + i) ≡ i = ground (arith, double) in
            ap (item nil (grown_array xs q.head)) here
            ∙ item-grown xs q.head i (omega (arith, v.starts)) i_below),
      )

  append_lem :
      (q : Queue A) (e : A)
      → IsValid q
      → q.size < length q.queue
      → (q' : Queue A) × (append nil q e ≡ some q')
        × IsValid q'
        × (contents nil q' ≡ contents nil q ++ e ∷ [])
  unfolding append contents cell
  append_lem q e v room =
      let xs = q.queue in
      let n = length xs in
      let tail_in : q.tail < n = ground (arith, v.ends, v.starts) in
      let inside : ltb q.tail n ≡ true = ground arith in
      let more : q.size + 1 ≡ suc q.size = omega arith in
      let same_length = length-set xs q.tail e in
      let wrapped = step_wrap n q.tail tail_in in
      let q' : Queue A = record {
        queue = set xs q.tail e;
        size = q.size + 1;
        head = q.head;
        tail = (q.tail + 1) % length (set xs q.tail e);
      } in
      let kept : ring nil (set xs q.tail e) q.head q.size ≡ ring nil xs q.head q.size =
        ring_ext nil (set xs q.tail e) xs q.head q.head q.size (λ i below.
          let at_same = ap (λ m. cell m (q.head + i)) same_length in
          let apart : (q.tail == cell n (q.head + i)) ≡ false = ground (arith, v.ends) in
          ap (item nil (set xs q.tail e)) at_same
          ∙ (rw apart at (item-set nil xs q.tail e (cell n (q.head + i)) tail_in))) in
      let last : item nil (set xs q.tail e) (cell (length (set xs q.tail e)) (q.head + q.size))
          ≡ e =
        ap (λ m. item nil (set xs q.tail e) (cell m (q.head + q.size))) same_length
        ∙ (ap (item nil (set xs q.tail e)) (sym v.ends)
            ∙ (rw (==_self q.tail) at (item-set nil xs q.tail e q.tail tail_in))) in
      (
        q',
        rw inside refl,
        record {
          small = omega (arith, same_length);
          starts = omega (arith, same_length, v.starts);
          ends =
              ap (λ m. (q.tail + 1) % m) same_length
              ∙ (wrapped ∙ ground (arith, v.ends, same_length));
        },
        ap (ring nil (set xs q.tail e) q.head) more
            ∙ (ring_last nil (set xs q.tail e) q.head q.size
                ∙ (ap
                      (λ r.
                        r
                        ++ item nil (set xs q.tail e)
                            (cell (length (set xs q.tail e)) (q.head + q.size))
                          ∷ [])
                      kept
                    ∙ ap (λ x. ring nil xs q.head q.size ++ x ∷ []) last)),
      )

  new_queue-IsValid : IsValid (new_queue nil)
  unfolding new_queue cell
  new_queue-IsValid = record { small = omega arith; starts = omega arith; ends = refl }

  -- Push on a well-formed queue does not panic, keeps the queue well-formed, and adds the element
  -- behind the others, also when the array has to be doubled.
  pub push-contents :
      (q : Queue A) (e : A)
      → IsValid q
      → (q' : Queue A) × (push nil q e ≡ some q')
        × IsValid q'
        × (contents nil q' ≡ contents nil q ++ e ∷ [])
  unfolding push cell
  push-contents q e v = elim (Bool-cases (q.head == q.tail && ltb 0 q.size)) [
    | inl full ↦
        let (q1, grown, v1, room, same) =
          grow_lem q v (ground arith) (ground (arith, v.ends, v.starts, v.small)) in
        let (q2, appended, v2, added) = append_lem q1 e v1 room in
        (q2, rw (full, grown) appended, v2, added ∙ ap (λ xs. xs ++ e ∷ []) same)
    | inr free ↦
        let (q2, appended, v2, added) =
          append_lem q e v (ground (arith, v.ends, v.starts, v.small)) in
        (q2, rw free appended, v2, added)
  ]

  -- Pop on a well-formed queue does not panic and keeps the queue well-formed: it gives nil and
  -- changes nothing when the queue is empty, and else takes the first element away.
  pub pop-contents :
      (q : Queue A)
      → IsValid q
      → ((contents nil q ≡ []) × (pop nil q ≡ some (nil, q)))
        ⊎ ((e : A) × (q' : Queue A) × (pop nil q ≡ some (e, q'))
            × IsValid q'
            × (contents nil q ≡ e ∷ contents nil q'))
  unfolding pop contents cell ring
  pop-contents q v =
      let xs = q.queue in
      let n = length xs in
      elim (Bool-cases (q.size == 0)) [
        | inl empty ↦
            let none_in : q.size ≡ 0 = ground arith in
            inl (ap (ring nil xs q.head) none_in, rw empty refl)
        | inr some_in ↦
            let e = item nil xs q.head in
            let q' : Queue A = record {
              queue = xs;
              size = q.size - 1;
              head = (q.head + 1) % n;
              tail = q.tail;
            } in
            let wrapped = step_wrap n q.head v.starts in
            let rest_lem : ring nil xs (suc q.head) (q.size - 1) ≡ contents nil q' =
              ring_ext nil xs xs (suc q.head) ((q.head + 1) % n) (q.size - 1)
                (λ i below. ap (item nil xs) (ground (arith, wrapped, v.starts, v.small, below))) in
            let one_more : q.size ≡ suc (q.size - 1) = ground arith in
            let here : cell n q.head ≡ q.head = ground (arith, v.starts) in
            inr (
              e,
              q',
              rw (some_in, get_elem?-item nil xs q.head v.starts) refl,
              record {
                small = ground (arith, v.small);
                starts = ground (arith, wrapped, v.starts);
                ends = ground (arith, wrapped, v.starts, v.ends, v.small);
              },
              ap (ring nil xs q.head) one_more
                  ∙ (ap (λ j. item nil xs j ∷ ring nil xs (suc q.head) (q.size - 1)) here
                      ∙ ap (λ r. e ∷ r) rest_lem),
            )
      ]

  run-any :
      (q : Queue A)
      → IsValid q
      → (ops : List (QueueOp A)) → run q ops ≡ some (fifo (contents nil q) ops)
  unfolding run
  run-any q v [] = refl
  run-any q v (push_op e ∷ ops) =
      let (q', pushed, v', added) = push-contents q e v in
      rw (run, pushed) (run-any q' v' ops ∙ ap (λ xs. some (fifo xs ops)) added)
  run-any q v (pop_op ∷ ops) = elim (pop-contents q v) [
    | inl (empty, popped) ↦
        let rest : run q ops ≡ some (fifo [] ops) =
          run-any q v ops ∙ ap (λ xs. some (fifo xs ops)) empty in
        rw (run, popped, rest, empty) refl
    | inr (e, q', popped, v', front) ↦ rw (run, popped, run-any q' v' ops, front) refl
  ]

  -- Whatever pushes and pops are made of a new queue, none panics, and the pops give what the first
  -- in, first out list gives, nil where it is empty.
  pub run-fifo : (ops : List (QueueOp A)) → run (new_queue nil) ops ≡ some (fifo [] ops)
  unfolding new_queue contents ring
  run-fifo ops = run-any (new_queue nil) new_queue-IsValid ops
