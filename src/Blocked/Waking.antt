-- ===== src/Blocked/Waking.antt =====
-- Waking one task of the queue.
use mathlib.Core.Path.{subst}
use hermit_kernel.Base.{
  ℕ, ◌≤◌, ◌≡◌, refl, Bool, true, false, Option, none, some, List, [], ◌∷◌, ◌++◌,
}
use hermit_kernel.Base.Tests.{◌==◌, if◌then◌else◌}
use hermit_kernel.Base.Lists.{All}
use hermit_kernel.Task.Types.{Tasks, TaskHandle}
use hermit_kernel.Timers.{Timers, Source}
use hermit_kernel.Timers.Armed.{time_of}
use hermit_kernel.Blocked.{
  BlockedTask, BlockedTaskQueue, front_time, is_first, split_at, custom_wakeup,
}
use hermit_kernel.Blocked.Deadlines.{IsOrdered, IsLegal, AreLegal, All-without, IsOrdered-without}
use hermit_kernel.Blocked.Wakeup.{
  IsValid, IsCovered, IsWakeable, set_timer_lem, sooner, mark_ready_lem, becomes_ready, woken,
}

-- None of the tasks has the identifier.
abbrev pub Absent : Tasks → ℕ → List BlockedTask → Type 0
Absent st id xs = All (λ x. ((st x.task).id == id) ≡ false) xs

split_at_lem :
    (st : Tasks) (id : ℕ) (before after : List BlockedTask) (node : BlockedTask)
    → Absent st id before
    → ((st node.task).id == id) ≡ true
    → split_at st id (before ++ node ∷ after) ≡ some (before, (node, after))
unfolding split_at
split_at_lem st id [] after node h e = rw e refl
split_at_lem st id (x ∷ before) after node h e =
    rw (h.0, split_at_lem st id before after node h.1 e) refl

-- What waking the task of `node` does to a valid queue.
pub record Wakes (q : BlockedTaskQueue) (before : List BlockedTask) (node : BlockedTask)
    (after : List BlockedTask) (out : Option (ℕ × (Bool × BlockedTaskQueue))) : Type 0 where
  pub queue : BlockedTaskQueue
  pub returns : out ≡ some (node.task, (becomes_ready (q.tasks node.task), queue))
  pub is_valid : IsValid queue
  pub list : queue.list ≡ before ++ after
  pub task : queue.tasks node.task ≡ woken (q.tasks node.task)
  pub tasks :
      (x : ℕ) → queue.tasks x ≡ (if x == node.task then woken (q.tasks node.task) else q.tasks x)

-- The deadline that a wake sets the timer for.
abbrev next_time : List BlockedTask → List BlockedTask → Option ℕ
next_time before after = if is_first before then front_time after else none

pub front-IsLegal : (xs : List BlockedTask) → AreLegal xs → IsLegal (front_time xs)
front-IsLegal [] h = tt
front-IsLegal (x ∷ xs) h = h.0

next-IsLegal :
    (before after : List BlockedTask)
    → AreLegal (before ++ after)
    → IsLegal (next_time before after)
next-IsLegal [] after h = front-IsLegal after h
next-IsLegal (x ∷ before) after h = tt

covers_rest :
    (t t' : Timers) (before after : List BlockedTask) (node : BlockedTask)
    → time_of t'.list Source.scheduler ≤ time_of t.list Source.scheduler
    → IsCovered t (front_time (before ++ node ∷ after))
    → IsCovered t' (next_time before after)
    → IsCovered t' (front_time (before ++ after))
covers_rest t t' [] after node le c d = d
covers_rest t t' (x ∷ before) after node le c d = sooner t t' x.wakeup_time le c

-- Waking a task that waits does not panic, if it belongs to the core and is blocked or ready. Its
-- node alone leaves the queue, which stays valid with its timer no later than the next deadline.
-- It becomes ready if it was blocked and is not being evicted; while it is, the wake is noted.
pub custom_wakeup_lem :
    (core : ℕ) (q : BlockedTaskQueue) (task : TaskHandle) (before after : List BlockedTask)
    (node : BlockedTask)
    → IsValid q
    → q.list ≡ before ++ node ∷ after
    → Absent q.tasks task.id before
    → ((q.tasks node.task).id == task.id) ≡ true
    → IsWakeable core (q.tasks node.task)
    → Wakes q before node after (custom_wakeup core q task)
unfolding custom_wakeup
custom_wakeup_lem core q task before after node v was absent found w =
    let ordered = subst IsOrdered was v.ordered in
    let legal =
      All-without (λ x. IsLegal (x.wakeup_time)) before after node (subst AreLegal was v.legal) in
    let cover = subst (λ xs. IsCovered q.timers (front_time xs)) was v.covered in
    let (t', e, armed, cov, le) =
      set_timer_lem q.timers (next_time before after) v.is_armed
        (next-IsLegal before after legal) in
    let (st', m, own, all) = mark_ready_lem core q.tasks node.task w in
    record {
      queue = record { list = before ++ after; tasks = st'; timers = t' };
      returns = rw (was, split_at_lem q.tasks task.id before after node absent found, e, m) refl;
      is_valid = record {
        ordered = IsOrdered-without before after node ordered;
        legal = legal;
        is_armed = armed;
        covered = covers_rest q.timers t' before after node le cover cov;
      };
      list = refl;
      task = own;
      tasks = all;
    }

split_at-Absent :
    (st : Tasks) (id : ℕ) (xs : List BlockedTask) → Absent st id xs → split_at st id xs ≡ none
unfolding split_at
split_at-Absent st id [] h = refl
split_at-Absent st id (x ∷ xs) h = rw (h.0, split_at-Absent st id xs h.1) refl

-- The wake of a task that does not wait panics.
pub custom_wakeup-Absent :
    (core : ℕ) (q : BlockedTaskQueue) (task : TaskHandle)
    → Absent q.tasks task.id q.list
    → custom_wakeup core q task ≡ none
unfolding custom_wakeup
custom_wakeup-Absent core q task h = rw (split_at-Absent q.tasks task.id q.list h) refl
