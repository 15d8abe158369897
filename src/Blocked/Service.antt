-- ===== src/Blocked/Service.antt =====
-- Serving the tasks whose time has come.
use hermit_kernel.Base.{ℕ, ◌≡◌, refl, inl, inr, false, Option, some, List, [], ◌∷◌, ◌++◌}
use hermit_kernel.Base.Tests.{Bool-cases}
use hermit_kernel.Base.Lists.{All}
use hermit_kernel.Task.ReadyQueue.{PriorityTaskQueue}
use hermit_kernel.Task.ReadyQueue.Order.{IsValid as IsValidReady}
use hermit_kernel.Timers.Armed.{IsArmed}
use hermit_kernel.Blocked.{
  BlockedTask, BlockedTaskQueue, front_time, is_due, due, not_due, handle_waiting_tasks,
}
use hermit_kernel.Blocked.Deadlines.{IsOrdered, AreLegal, due-first}
use hermit_kernel.Blocked.Wakeup.{IsValid, set_timer_lem}
use hermit_kernel.Blocked.Waking.{front-IsLegal}
use hermit_kernel.Blocked.Readying.{IsReadyable, wake_all_lem}

-- What the timer interrupt does to the tasks that wait.
pub record Serves (time : ℕ) (q : BlockedTaskQueue)
    (out : Option (BlockedTaskQueue × PriorityTaskQueue)) : Type 0 where
  pub queue : BlockedTaskQueue
  pub ready : PriorityTaskQueue
  pub returns : out ≡ some (queue, ready)
  pub is_valid : IsValid queue
  pub is_valid_ready : IsValidReady queue.tasks ready
  pub list : due time q.list ++ queue.list ≡ q.list
  pub none_due : All (λ x. is_due time x ≡ false) queue.list

AreLegal-not_due : (time : ℕ) (xs : List BlockedTask) → AreLegal xs → AreLegal (not_due time xs)
unfolding not_due
AreLegal-not_due time [] h = tt
AreLegal-not_due time (x ∷ xs) h = elim (Bool-cases (is_due time x)) [
  | inl e ↦ rw e (AreLegal-not_due time xs h.1)
  | inr e ↦ rw e (h.0, AreLegal-not_due time xs h.1)
]

none-due : (time : ℕ) (xs : List BlockedTask) → All (λ x. is_due time x ≡ false) (not_due time xs)
unfolding not_due
none-due time [] = tt
none-due time (x ∷ xs) = elim (Bool-cases (is_due time x)) [
  | inl e ↦ rw e (none-due time xs)
  | inr e ↦ rw e (e, none-due time xs)
]

-- If the deadlines are in order and the tasks whose deadline has passed belong to the core, are
-- blocked or ready and have a legal priority, the timer interrupt does not panic. Exactly these
-- tasks, the front of the queue, leave it; the ready queue stays valid; and the timer is set for
-- the next deadline or earlier, even if it was set for no deadline before.
pub handle_waiting_tasks_lem :
    (core time : ℕ) (q : BlockedTaskQueue) (ready : PriorityTaskQueue)
    → IsOrdered q.list
    → AreLegal q.list
    → IsArmed q.timers
    → IsValidReady q.tasks ready
    → All (λ x. IsReadyable core (q.tasks x.task)) (due time q.list)
    → Serves time q (handle_waiting_tasks core time q ready)
unfolding handle_waiting_tasks
handle_waiting_tasks_lem core time q ready v l t w h =
    let (tasks, ready', e, w') = wake_all_lem core (due time q.list) q.tasks ready h w in
    let (split, ordered) = due-first time q.list v in
    let legal = AreLegal-not_due time q.list l in
    let (t', f, armed, cov, le) =
      set_timer_lem q.timers (front_time (not_due time q.list)) t
        (front-IsLegal (not_due time q.list) legal) in
    record {
      queue = record { list = not_due time q.list; tasks = tasks; timers = t' };
      ready = ready';
      returns = rw (e, f) refl;
      is_valid = record { ordered = ordered; legal = legal; is_armed = armed; covered = cov };
      is_valid_ready = w';
      list = split;
      none_due = none-due time q.list;
    }
