-- ===== src/Stack.antt =====
-- lib/stack.go: the stack on a linked list with a counter.
use paxi.Common.{
  ℕ, ◌+◌, ◌-◌, ◌≡◌, refl, Bool, true, false, Option, none, some, List, [], ◌∷◌, ◌==◌, if◌then◌else◌,
  length, arith,
}

-- `top` is the chain of the nodes' values along `prev`, which no node ever changes.
pub record Stack (A : Type 0) : Type 0 where
  pub top : List A
  pub length : ℕ

-- Operations of a stack, for runs.
pub data StackOp (A : Type 0) : Type 0 where
  push_op : A → StackOp A
  peek_op : StackOp A
  pop_op : StackOp A

module _ {A : Type 0} (nil : A) where
  unfoldable pub new_stack : Stack A
  new_stack = record { top = []; length = 0 }

  unfoldable pub empty : Stack A → Bool
  empty s = s.length == 0

  -- Reading a nil `top` panics.
  unfoldable pub peek : Stack A → Option A
  peek s = if s.length == 0 then some nil else elim s.top [ [] ↦ none | x ∷ rest ↦ some x ]

  unfoldable pub pop : Stack A → Option (A × Stack A)
  pop s = if s.length == 0 then some (nil, s) else elim s.top [
    | [] ↦ none
    | x ∷ rest ↦ some (x, record { top = rest; length = s.length - 1 })
  ]

  unfoldable pub push : Stack A → A → Stack A
  push s v = record { top = v ∷ s.top; length = s.length + 1 }

  -- What the Peeks and Pops of a sequence of operations give, none on a panic.
  unfoldable pub run : Stack A → List (StackOp A) → Option (List A)
  run s [] = some []
  run s (push_op v ∷ ops) = run (push s v) ops
  run s (peek_op ∷ ops) =
      let rest = run s ops in
      elim (peek s) [ none ↦ none | some v ↦ elim rest [ none ↦ none | some vs ↦ some (v ∷ vs) ] ]
  run s (pop_op ∷ ops) = elim (pop s) [
    | none ↦ none
    | some (v, s') ↦ elim (run s' ops) [ none ↦ none | some vs ↦ some (v ∷ vs) ]
  ]

  -- The same of a list, at whose front elements join and leave.
  abbrev pub lifo : List A → List (StackOp A) → List A
  lifo xs [] = []
  lifo xs (push_op v ∷ ops) = lifo (v ∷ xs) ops
  lifo [] (peek_op ∷ ops) = nil ∷ lifo [] ops
  lifo (x ∷ xs) (peek_op ∷ ops) = x ∷ lifo (x ∷ xs) ops
  lifo [] (pop_op ∷ ops) = nil ∷ lifo [] ops
  lifo (x ∷ xs) (pop_op ∷ ops) = x ∷ lifo xs ops

  run_list :
      (xs : List A) (n : ℕ) (ops : List (StackOp A))
      → n ≡ length xs
      → run (record { top = xs; length = n }) ops ≡ some (lifo xs ops)
  unfolding run push peek pop
  run_list xs n [] counted = refl
  run_list xs n (push_op v ∷ ops) counted = run_list (v ∷ xs) (n + 1) ops (omega (arith, counted))
  run_list [] n (peek_op ∷ ops) counted =
      let zero_in : (n == 0) ≡ true = ground arith in
      rw (run, zero_in, run_list [] n ops counted) refl
  run_list (x ∷ xs) n (peek_op ∷ ops) counted =
      let some_in : (n == 0) ≡ false = ground arith in
      rw (run, some_in, run_list (x ∷ xs) n ops counted) refl
  run_list [] n (pop_op ∷ ops) counted =
      let zero_in : (n == 0) ≡ true = ground arith in
      rw (run, zero_in, run_list [] n ops counted) refl
  run_list (x ∷ xs) n (pop_op ∷ ops) counted =
      let some_in : (n == 0) ≡ false = ground arith in
      rw (run, some_in, run_list xs (n - 1) ops (omega (arith, counted))) refl

  -- Whatever pushes, peeks and pops are made of a new stack, none panics, and the peeks and pops
  -- give what the last in, first out list gives, nil where it is empty.
  pub run-lifo : (ops : List (StackOp A)) → run new_stack ops ≡ some (lifo [] ops)
  unfolding new_stack
  run-lifo ops = run_list [] 0 ops refl
