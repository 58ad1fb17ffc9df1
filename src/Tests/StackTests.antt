-- ===== src/Tests/StackTests.antt =====
-- The stack at work.
use paxi.Common.{ℕ, ◌≡◌, some, List, [], ◌∷◌}
use paxi.Stack.{StackOp, push_op, peek_op, pop_op, new_stack, run, run-lifo}

abbrev ops : List (StackOp ℕ)
ops = pop_op ∷ push_op 5 ∷ push_op 6 ∷ peek_op ∷ pop_op ∷ pop_op ∷ []

run-lifo_example : run 0 (new_stack 0) ops ≡ some (0 ∷ 6 ∷ 6 ∷ 5 ∷ [])
run-lifo_example = run-lifo 0 ops
