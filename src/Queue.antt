-- ===== src/Queue.antt =====
-- lib/queue.go: the FIFO queue on a ring buffer that doubles when it is full.
use paxi.Common.{
  ℕ, zero, suc, ◌+◌, ◌-◌, ◌*◌, ◌%◌, ◌&&◌, Option, none, some, List, [], ◌∷◌, ltb, ◌==◌,
  if◌then◌else◌, length, get_elem?, set, take, drop, replicate,
}
pub mod Ring
pub mod Fifo

-- `head` and `tail` index the slice `queue`.
pub record Queue (A : Type 0) : Type 0 where
  pub queue : List A
  pub size : ℕ
  pub head : ℕ
  pub tail : ℕ

-- The builtin `copy`: as many elements as both slices have.
abbrev pub copy : {A : Type 0} → List A → List A → List A
copy [] src = []
copy (d ∷ dst) [] = d ∷ dst
copy (d ∷ dst) (s ∷ src) = s ∷ copy dst src

-- `copy(dst[k:], src)`
abbrev pub copy_at : {A : Type 0} → ℕ → List A → List A → List A
copy_at zero dst src = copy dst src
copy_at (suc k) [] src = []
copy_at (suc k) (d ∷ dst) src = d ∷ copy_at k dst src

-- The elements are of type interface{}, with its nil.
module _ {A : Type 0} (nil : A) where
  unfoldable pub new_queue : Queue A
  new_queue = record { queue = replicate 100 nil; size = 0; head = 0; tail = 0 }

  -- The body of `if q.head == q.tail && q.size > 0`; a slice from beyond the end panics.
  unfoldable pub grow : Queue A → Option (Queue A)
  grow q =
      if ltb (length q.queue) q.head
      then none
      else (let queue = replicate (length q.queue * 2) nil in
          let queue' = copy queue (drop q.head q.queue) in
          let queue'' = copy_at (length q.queue - q.head) queue' (take q.head q.queue) in
          some (record { queue = queue''; size = q.size; head = 0; tail = length q.queue }))

  -- The rest of Push; a write out of range panics.
  unfoldable pub append : Queue A → A → Option (Queue A)
  append q e =
      if ltb q.tail (length q.queue)
      then (let queue = set q.queue q.tail e in
          some (record {
            queue = queue;
            size = q.size + 1;
            head = q.head;
            tail = (q.tail + 1) % length queue;
          }))
      else none

  unfoldable pub push : Queue A → A → Option (Queue A)
  unfolding grow append
  push q e =
      if q.head == q.tail && ltb 0 q.size
      then elim (grow q) [ none ↦ none | some q' ↦ append q' e ]
      else append q e

  -- A read out of range panics.
  unfoldable pub pop : Queue A → Option (A × Queue A)
  pop q = if q.size == 0 then some (nil, q) else elim (get_elem? q.queue q.head) [
    | none ↦ none
    | some e ↦ some (e, record q { head = (q.head + 1) % length q.queue; size = q.size - 1 })
  ]
