-- ===== src/Scheduler.antt =====
-- src/scheduler/mod.rs: `ensure_slot`, by which the scheduler gives a task that it dispatches a slot
-- for its saved registers, and `custom_wakeup`, by which a waiting task is made ready. The slots are those of SlotPool, the waiting tasks those of Blocked; the
-- current core, the time and the address of the slots are arguments. `none` as a result is a panic,
-- or the loop without an end of a victim without a slot, which the choice of the victim excludes.
pub mod Evictions
pub mod Wakeups
mod Tests
use hermit_kernel.Base.{ℕ, zero, suc, ◌%◌, Bool, true, false, ◌&&◌, ◌||◌, not, Option, none, some}
use hermit_kernel.Base.Tests.{◌==◌, if◌then◌else◌, ◌>>=◌}
use hermit_kernel.Task.Types.{Task, Tasks, TaskHandle}
use hermit_kernel.Task.ReadyQueue.{PriorityTaskQueue, push as push_ready}
use hermit_kernel.Blocked.{BlockedTaskQueue, with_task, mark_ready, custom_wakeup as wake_blocked}
use hermit_kernel.Blocked.Victim.{select_eviction_victim}
use hermit_kernel.SlotPool.{
  Slots, Memory, is_in_slot, is_evicted, is_some, dispatch_acquire_slot, resume_from_evicted,
  evict_victim,
}

-- The fields of `PerCoreScheduler` that `ensure_slot` and `custom_wakeup` use.
pub record PerCoreScheduler : Type 0 where
  pub slots : Slots
  pub blocked_tasks : BlockedTaskQueue
  pub ready_queue : PriorityTaskQueue

abbrev pub task_at : PerCoreScheduler → ℕ → Task
task_at s r = s.blocked_tasks.tasks r

abbrev pub with_tasks : PerCoreScheduler → Tasks → PerCoreScheduler
with_tasks s tasks = record s { blocked_tasks = record s.blocked_tasks { tasks = tasks } }

-- The slots and one task after an operation on them.
abbrev pub with_slots : PerCoreScheduler → Slots → ℕ → Task → PerCoreScheduler
with_slots s slots r t = record s {
  slots = slots;
  blocked_tasks = record s.blocked_tasks { tasks = with_task s.blocked_tasks.tasks r t };
}

pub try_acquire : ℕ → ℕ → ℕ → PerCoreScheduler → Option (Bool × PerCoreScheduler)
try_acquire base core r s = do
  (done, (slots, t)) ← dispatch_acquire_slot base core s.slots (task_at s r)
  some (done, with_slots s slots r t)

pub try_resume : ℕ → ℕ → ℕ → PerCoreScheduler → Option (Bool × PerCoreScheduler)
try_resume base core r s = do
  (done, (slots, t)) ← resume_from_evicted base core s.slots (task_at s r)
  some (done, with_slots s slots r t)

-- The wake that was put off while the victim was evicted.
pub complete_wake : ℕ → ℕ → Bool → PerCoreScheduler → Option PerCoreScheduler
complete_wake core v false s = some s
complete_wake core v true s = do
  (completed, tasks) ← mark_ready core s.blocked_tasks.tasks v
  ready ← if completed then push_ready tasks v s.ready_queue else some s.ready_queue
  some (record (with_tasks s tasks) { ready_queue = ready })

-- The eviction of one victim, and the task's next try.
pub evict_and_retry : ℕ → ℕ → ℕ → ℕ → PerCoreScheduler → Option (Bool × PerCoreScheduler)
unfolding try_acquire complete_wake
evict_and_retry base core r v s = do
  slot_idx ← (task_at s v).slot
  (woken, (slots, t)) ← evict_victim base core s.slots (task_at s v) slot_idx
  s' ← complete_wake core v woken (with_slots s slots v t)
  try_acquire base core r s'

-- The loop, for at most so many evictions. The first part is whether the task has a slot then.
pub evict_loop : ℕ → ℕ → ℕ → ℕ → ℕ → PerCoreScheduler → Option (Bool × PerCoreScheduler)
unfolding evict_and_retry
evict_loop zero base core now r s = some (false, s)
evict_loop (suc n) base core now r s = do
  victim ← select_eviction_victim s.blocked_tasks (task_at s r).id now
  elim victim [
    | none ↦ some (false, s)
    | some v ↦ do
      (done, s') ← evict_and_retry base core r v s
      elim done [ true ↦ some (true, s') | false ↦ evict_loop n base core now r s' ]
  ]

abbrev pub touched : ℕ → ℕ → PerCoreScheduler → PerCoreScheduler
touched now r s =
    with_tasks s (with_task s.blocked_tasks.tasks r (record (task_at s r) { last_touch = now }))

-- A frame that is to stay on the stack where it is, by the mode that its first word records.
abbrev pub is_in_place : Memory → ℕ → Bool
is_in_place m frame = not (frame == 0) && (m frame % 2 == 1)

abbrev pub needs_none : PerCoreScheduler → Task → Bool
needs_none s t =
    is_some t.slot && is_in_slot t.frame_location || is_in_place s.slots.memory t.last_stack_pointer

-- The steps after the task was resumed, if it was evicted, which were not enough.
pub acquire_or_evict : ℕ → ℕ → ℕ → ℕ → PerCoreScheduler → Option PerCoreScheduler
unfolding try_acquire evict_loop
acquire_or_evict base core now r s = do
  (done, s₁) ← try_acquire base core r s
  elim done [
    | true ↦ some s₁
    | false ↦ do
      (evicted, s₂) ← evict_loop 2 base core now r s₁
      elim evicted [ true ↦ some s₂ | false ↦ do (last, s₃) ← try_acquire base core r s₂; some s₃ ]
  ]

-- An evicted task takes a free slot for the frame that was put away.
pub resume_or_evict : ℕ → ℕ → ℕ → ℕ → PerCoreScheduler → Option PerCoreScheduler
unfolding acquire_or_evict try_resume
resume_or_evict base core now r s = do
  (resumed, s₁) ← try_resume base core r s
  elim resumed [ true ↦ some s₁ | false ↦ acquire_or_evict base core now r s₁ ]

pub ensure_slot : ℕ → ℕ → ℕ → ℕ → PerCoreScheduler → Option PerCoreScheduler
unfolding acquire_or_evict resume_or_evict
ensure_slot base core now r s =
    let s₁ = touched now r s in
    if needs_none s₁ (task_at s₁ r)
    then some s₁
    else if is_evicted (task_at s₁ r).frame_location
    then resume_or_evict base core now r s₁
    else acquire_or_evict base core now r s₁

-- The wake of the task with a handle, on a kernel for one core: the task leaves the blocked tasks,
-- and is pushed to the ready queue unless its wake is put off.
pub custom_wakeup : ℕ → PerCoreScheduler → TaskHandle → Option PerCoreScheduler
custom_wakeup core s task = do
  (r, (completed, blocked)) ← wake_blocked core s.blocked_tasks task
  ready ← if completed then push_ready blocked.tasks r s.ready_queue else some s.ready_queue
  some (record s { blocked_tasks = blocked; ready_queue = ready })
