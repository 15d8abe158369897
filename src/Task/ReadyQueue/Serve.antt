-- ===== src/Task/ReadyQueue/Serve.antt =====
-- What the operations that look at the first ready task return.
use hermit_kernel.Base.{
  ℕ, ◌≤◌, ◌<◌, ◌≡◌, ◌≢◌, sym, ap, ◌⊎◌, inl, inr, true, none, some, List, [], ◌∷◌, arith,
}
use hermit_kernel.Base.Tests.{ltb, Bool-cases}
use hermit_kernel.Base.Bits.{bit, bit-zero}
use hermit_kernel.Task.Types.{Tasks, idle_prio}
use hermit_kernel.Task.ReadyQueue.{
  PriorityTaskQueue, pop, pop_with_prio, is_empty, get_highest_priority, pop_from_queue,
}
use hermit_kernel.Task.ReadyQueue.Order.{
  IsValid, waiting, Pops, nothing, first, IsValid-Highest, pop_level,
}

-- On a valid queue `pop` returns the first task that waits and keeps the others in order; it
-- returns none, and changes nothing, exactly if no task waits.
pub pop_task_refines :
    (st : Tasks) (q : PriorityTaskQueue)
    → IsValid st q
    → ((waiting q ≡ []) × (pop q ≡ some (none, q))) ⊎ Pops st q (pop q)
unfolding pop
pop_task_refines st q v = elim (IsValid-Highest st q v) [
  | nothing e z w ↦ inl (w, rw (e, pop))
  | first i r xs e h w p ↦
      let step : pop q ≡ pop_from_queue q i = rw (e, pop) in inr (rw step (pop_level st q i v h))
]

-- `pop_with_prio` takes the first task that waits if its priority is at least `prio`. If none waits
-- or the first one is less urgent it returns none and changes nothing.
pub pop_with_prio_refines :
    (st : Tasks) (q : PriorityTaskQueue) (prio : ℕ)
    → IsValid st q
    → ((waiting q ≡ []) × (pop_with_prio q prio ≡ some (none, q)))
      ⊎ ((r : ℕ) × (xs : List ℕ) × (waiting q ≡ r ∷ xs)
          × (((st r).prio < prio) × (pop_with_prio q prio ≡ some (none, q))
              ⊎ (prio ≤ (st r).prio) × Pops st q (pop_with_prio q prio)))
unfolding pop_with_prio
pop_with_prio_refines st q prio v = elim (IsValid-Highest st q v) [
  | nothing e z w ↦ inl (w, rw (e, pop_with_prio))
  | first i r xs e h w p ↦ inr (
    r,
    xs,
    w,
    elim (Bool-cases (ltb i prio)) [
      | inl less ↦ inl (ground arith, rw (e, pop_with_prio) (rw less))
      | inr more ↦
          let step : pop_with_prio q prio ≡ pop_from_queue q i = rw (e, pop_with_prio) (rw more) in
          inr (ground arith, rw step (pop_level st q i v h))
    ],
  )
]

zero_of_is_empty : (q : PriorityTaskQueue) → is_empty q ≡ true → q.prio_bitmap ≡ 0
unfolding is_empty
zero_of_is_empty q h = ground arith

-- `get_highest_priority` is the priority of the first task that waits, and the idle priority if
-- none does; `is_empty` says whether none does.
pub highest_priority_lem :
    (st : Tasks) (q : PriorityTaskQueue)
    → IsValid st q
    → (waiting q ≡ []) × (is_empty q ≡ true) × (get_highest_priority q ≡ idle_prio)
      ⊎ (r : ℕ) × (xs : List ℕ) × (waiting q ≡ r ∷ xs)
        × (is_empty q ≢ true)
        × (get_highest_priority q ≡ (st r).prio)
unfolding is_empty get_highest_priority
highest_priority_lem st q v = elim (IsValid-Highest st q v) [
  | nothing e z w ↦ inl (w, rw (z, is_empty), rw (e, get_highest_priority))
  | first i r xs e h w p ↦ inr (
    r,
    xs,
    w,
    λ idle. ground (arith, h.0, ap (bit i) (zero_of_is_empty q idle), bit-zero i),
    rw (e, get_highest_priority) (sym p),
  )
]
