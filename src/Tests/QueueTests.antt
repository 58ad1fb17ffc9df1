-- ===== src/Tests/QueueTests.antt =====
-- The queue at work.
use paxi.Common.{arith, ℕ, ◌≡◌, refl, some, List, [], ◌∷◌}
use paxi.Queue.{Queue, push, grow, append}
use paxi.Queue.Ring.{ring, contents, cell, item}
use paxi.Queue.Fifo.{IsValid, QueueOp, push_op, pop_op, run, run-fifo}
use paxi.Queue.{new_queue}

-- A full ring of two cells that starts at the second one.
abbrev full : Queue ℕ
full = record { queue = 8 ∷ 7 ∷ []; size = 2; head = 1; tail = 1 }

full-IsValid : IsValid full
unfolding cell
full-IsValid = record { small = omega arith; starts = omega arith; ends = refl }

abbrev ops : List (QueueOp ℕ)
ops = pop_op ∷ push_op 5 ∷ push_op 6 ∷ pop_op ∷ pop_op ∷ []

run-fifo_example : run 0 (new_queue 0) ops ≡ some (0 ∷ 5 ∷ 6 ∷ [])
run-fifo_example = run-fifo 0 ops

-- What the ring holds, and where the elements stand once the array has doubled.
full_holds : contents 0 full ≡ 7 ∷ 8 ∷ []
unfolding contents ring cell item
full_holds = refl

full_grows :
    push 0 full 9 ≡ some (record { queue = 7 ∷ 8 ∷ 9 ∷ 0 ∷ []; size = 3; head = 0; tail = 3 })
unfolding push grow append
full_grows = refl
