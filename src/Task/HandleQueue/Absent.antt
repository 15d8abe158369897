-- ===== src/Task/HandleQueue/Absent.antt =====
-- Identifiers that do not wait in a handle queue of src/scheduler/task/mod.rs.
use hermit_kernel.Base.{ℕ, zero, suc, ◌<◌, ◌≡◌, refl, ap, ◌∙◌, inl, inr, false, List, [], arith}
use hermit_kernel.Base.Tests.{◌==◌, ltb, ltb→lt, Bool-cases}
use hermit_kernel.Base.Lists.{length, get_or_out}
use hermit_kernel.Task.Types.{TaskHandle}
use hermit_kernel.Task.Levels.{no_priorities, level, order}
use hermit_kernel.Task.HandleQueue.{TaskHandlePriorityQueue, any_id}
use hermit_kernel.Task.HandleQueue.Repr.{levels, waiting, length-levels}
use hermit_kernel.Task.HandleQueue.Remove.{OnlyAt, any_id-append}

absent_below :
    (k id : ℕ) (qs : List (List TaskHandle)) (j : ℕ)
    → any_id id (order k qs) ≡ false
    → j < k
    → any_id id (level qs j) ≡ false
unfolding order
absent_below zero id qs j h l = absurd (omega arith)
absent_below (suc k) id qs j h l = elim (Bool-cases (j == k)) [
  | inl e ↦
      let same : j ≡ k = ground arith in
      let here = any_id-append id (level qs k) (order k qs) in
      ap (λ i. any_id id (level qs i)) same ∙ ground (arith, here, h)
  | inr e ↦
      let below = any_id-append id (level qs k) (order k qs) in
      absent_below k id qs j (ground (arith, below, h)) (ground arith)
]

-- An identifier that does not wait in a queue waits at no other priority there.
pub absent-OnlyAt :
    (q : TaskHandlePriorityQueue) (id i : ℕ)
    → length q.queues ≡ no_priorities
    → any_id id (waiting q) ≡ false
    → OnlyAt id i (levels q)
unfolding any_id
absent-OnlyAt q id i size h j n = elim (Bool-cases (ltb j no_priorities)) [
  | inl e ↦ absent_below no_priorities id (levels q) j h (ltb→lt j no_priorities e)
  | inr e ↦ rw (get_or_out (levels q) j [] (ground (arith, length-levels q.queues, size))) refl
]
