-- ===== src/Futex/Loop.antt =====
-- The loop of the wakes at an address: src/synch/futex.rs, futex_wake and futex_wake_or_set.
use mathlib.Core.Path.{subst}
use hermit_kernel.Base.{
  ℕ, zero, suc, ◌+◌, ◌-◌, ◌<◌, ◌≤◌, ◌≡◌, min, refl, sym, ap, ◌∙◌, inl, inr, true, false, ◌&&◌, not,
  Option, none, some, arith,
}
use hermit_kernel.Base.Tests.{◌==◌, if◌then◌else◌, Bool-cases, ◌>>=◌}
use hermit_kernel.Base.Lists.{length, take, drop}
use hermit_kernel.Task.HandleQueue
use hermit_kernel.Task.HandleQueue.{TaskHandlePriorityQueue, any_id}
use hermit_kernel.Task.HandleQueue.Pool.{BitmapPool}
use hermit_kernel.Task.HandleQueue.Repr.{
  IsPool, IsAllocated, KeepsOthers, KeepsOthers-trans, waiting,
}
use hermit_kernel.Task.HandleQueue.Take.{Pops, PopsNothing, pop_handle_refines}
use hermit_kernel.Scheduler.{PerCoreScheduler, custom_wakeup}
use hermit_kernel.Scheduler.Wakeups.{wake_tasks}
use hermit_kernel.Futex.{i32_max, saturating_inc, wake_loop}

-- How many of `waiters` tasks a loop wakes that has woken some.
abbrev pub amount : ℕ → ℕ → ℕ → ℕ
amount count done waiters = if count == i32_max then waiters else min (count - done) waiters

pub amount_none : (count done : ℕ) → amount count done 0 ≡ 0
amount_none count done = ground arith

amount_done :
    (count done waiters : ℕ)
    → (done == count && not (count == i32_max)) ≡ true
    → amount count done waiters ≡ 0
amount_done count done waiters h = ground arith

amount_step :
    (count done waiters : ℕ)
    → done ≤ count
    → count ≤ i32_max
    → (done == count && not (count == i32_max)) ≡ false
    → amount count done (suc waiters) ≡ suc (amount count (saturating_inc done) waiters)
amount_step count done waiters l m h = ground arith

-- What the loop does: it wakes the first n tasks in turn, and panics exactly if waking them does.
pub record Wakes (core : ℕ) (p : BitmapPool) (q : TaskHandlePriorityQueue) (done n : ℕ)
    (run : PerCoreScheduler
      → Option (ℕ × (BitmapPool × (TaskHandlePriorityQueue × PerCoreScheduler))))
    : Type 0 where
  pub pool : BitmapPool
  pub queue : TaskHandlePriorityQueue
  pub returns :
      (s : PerCoreScheduler)
      → run s ≡ (
          wake_tasks core s (take n (waiting q)) >>= λ s'.
          some (min (done + n) i32_max, (pool, (queue, s'))))
  pub is_pool : IsPool pool
  pub allocated : IsAllocated pool queue
  pub others : KeepsOthers p q pool queue.prio_bitmap_id
  pub left : waiting queue ≡ drop n (waiting q)

count_on : (done n : ℕ) → min (saturating_inc done + n) i32_max ≡ min (done + suc n) i32_max
count_on done n = omega arith

module _ (fuel core count done : ℕ) (p : BitmapPool) (q : TaskHandlePriorityQueue) where
  stopped :
      IsPool p
      → IsAllocated p q
      → done ≤ i32_max
      → (done == count && not (count == i32_max)) ≡ true
      → Wakes core p q done 0 (wake_loop (suc fuel) core count done p q)
  unfolding wake_loop wake_tasks
  stopped v a m h = record {
    pool = p;
    queue = q;
    returns = λ s. rw h (
        ap (λ n. some (n, (p, (q, s)))) (let e : done ≡ min (done + 0) i32_max = omega arith in e));
    is_pool = v;
    allocated = a;
    others = λ other b n. (b, n);
    left = refl;
  }

  used_up :
      done ≤ i32_max
      → (done == count && not (count == i32_max)) ≡ false
      → PopsNothing p q (HandleQueue.pop p q)
      → Wakes core p q done 0 (wake_loop (suc fuel) core count done p q)
  unfolding wake_loop wake_tasks
  used_up m h d = record {
    pool = d.pool;
    queue = d.queue;
    returns = λ s.
        rw (h, d.returns)
          (ap (λ n. some (n, (d.pool, (d.queue, s))))
            (let e : done ≡ min (done + 0) i32_max = omega arith in e));
    is_pool = d.is_pool;
    allocated = d.allocated;
    others = d.others;
    left = d.still_nothing ∙ sym d.nothing;
  }

  after_one :
      (n : ℕ) (d : Pops p q (HandleQueue.pop p q))
      → (w : Wakes core d.pool d.queue
          (saturating_inc done)
          n
          (wake_loop fuel core count (saturating_inc done) d.pool d.queue))
      → (o : Option PerCoreScheduler)
      → (o >>= λ s'. wake_loop fuel core count (saturating_inc done) d.pool d.queue s') ≡ (
          (o >>= λ s'. wake_tasks core s' (take n (waiting d.queue))) >>= λ s'.
          some (min (done + suc n) i32_max, (w.pool, (w.queue, s'))))
  after_one n d w none = refl
  after_one n d w (some s) =
      w.returns s
      ∙ ap
          (λ k. wake_tasks core s (take n (waiting d.queue)) >>= λ s'.
            some (k, (w.pool, (w.queue, s'))))
          (count_on done n)

  one_more :
      (n : ℕ)
      → (done == count && not (count == i32_max)) ≡ false
      → (d : Pops p q (HandleQueue.pop p q))
      → Wakes core d.pool d.queue
          (saturating_inc done)
          n
          (wake_loop fuel core count (saturating_inc done) d.pool d.queue)
      → Wakes core p q done (suc n) (wake_loop (suc fuel) core count done p q)
  unfolding wake_loop wake_tasks
  one_more n h d w = record {
    pool = w.pool;
    queue = w.queue;
    returns = λ s.
        rw (h, d.returns) (after_one n d w (custom_wakeup core s d.task))
        ∙ ap
            (λ xs. wake_tasks core s xs >>= λ s'.
              some (min (done + suc n) i32_max, (w.pool, (w.queue, s'))))
            (ap (take (suc n)) (sym d.taken));
    is_pool = w.is_pool;
    allocated = w.allocated;
    others = KeepsOthers-trans p q d.pool d.queue w.pool w.queue.prio_bitmap_id d.others w.others;
    left = w.left ∙ ap (drop (suc n)) (sym d.taken);
  }

pub wake_loop_lem :
    (fuel core count done : ℕ) (p : BitmapPool) (q : TaskHandlePriorityQueue)
    → IsPool p
    → IsAllocated p q
    → done ≤ count
    → count ≤ i32_max
    → length (waiting q) < fuel
    → Wakes core p q done
        (amount count done (length (waiting q)))
        (wake_loop fuel core count done p q)
wake_loop_lem zero core count done p q v a m c f = absurd (omega arith)
wake_loop_lem (suc fuel) core count done p q v a m c f =
    elim (Bool-cases (done == count && not (count == i32_max))) [
      | inl h ↦
          let none_left = amount_done count done (length (waiting q)) h in
          subst (λ n. Wakes core p q done n (wake_loop (suc fuel) core count done p q))
            (sym none_left) (stopped fuel core count done p q v a (omega arith) h)
      | inr h ↦ elim (pop_handle_refines p q v (inl a)) [
        | inl d ↦
            let none_left =
              ap (λ xs. amount count done (length xs)) d.nothing ∙ amount_none count done in
            subst (λ n. Wakes core p q done n (wake_loop (suc fuel) core count done p q))
              (sym none_left) (used_up fuel core count done p q (omega arith) h d)
        | inr d ↦
            let more =
              ap (λ xs. amount count done (length xs)) d.taken
              ∙ amount_step count done (length (waiting d.queue)) m c h in
            let rest = ap length d.taken in
            subst (λ n. Wakes core p q done n (wake_loop (suc fuel) core count done p q)) (sym more)
              (one_more fuel core count done p q _ h d (
                wake_loop_lem fuel core count (saturating_inc done) d.pool d.queue d.is_pool
                  d.allocated (ground arith) c (omega (arith, rest, f))))
      ]
    ]
