-- ===== src/Blocked.antt =====
-- `BlockedTaskQueue` of src/scheduler/task/mod.rs: the tasks that wait, the one with the earliest
-- deadline first. Times are microseconds; the current time and the number of the current core are
-- arguments. `none` as a result is a panic.
pub mod Deadlines
pub mod Wakeup
pub mod Waking
pub mod Readying
pub mod Service
pub mod Victim
mod Tests
use hermit_kernel.Base.{
  ℕ, ◌+◌, ◌-◌, ◌^◌, Bool, true, false, ◌&&◌, ◌||◌, not, Option, none, some, List, [], ◌∷◌, ◌++◌,
}
use hermit_kernel.Base.Tests.{◌==◌, ltb, leb, if◌then◌else◌, ◌>>=◌, ◌>>◌, assert}
use hermit_kernel.Task.Types.{TaskStatus, FrameLocation, Task, Tasks, TaskHandle}
use hermit_kernel.Task.ReadyQueue.{PriorityTaskQueue, push as push_ready}
use hermit_kernel.Timers.{Timers, Source, create_timer_abs}

pub record BlockedTask : Type 0 where
  pub task : ℕ
  pub wakeup_time : Option ℕ

-- The queue with what its operations change besides: the tasks and the timers of the core.
pub record BlockedTaskQueue : Type 0 where
  pub list : List BlockedTask
  pub tasks : Tasks
  pub timers : Timers

abbrev pub with_task : Tasks → ℕ → Task → Tasks
with_task st r v i = if i == r then v else st i

abbrev pub is_running : TaskStatus → Bool
is_running TaskStatus.running = true
is_running _ = false

abbrev pub is_blocked : TaskStatus → Bool
is_blocked TaskStatus.blocked = true
is_blocked _ = false

abbrev pub is_ready : TaskStatus → Bool
is_ready TaskStatus.ready = true
is_ready _ = false

-- The wake of a blocked task: it is put off while the task is being evicted.
wake : FrameLocation → Task → Bool × Task
wake FrameLocation.being_evicted t = (false, record t { wake_pending = true })
wake FrameLocation.evicted t = (true, record t { status = TaskStatus.ready })
wake FrameLocation.in_slot t = (true, record t { status = TaskStatus.ready })

-- Whether the task became ready.
pub mark_ready : ℕ → Tasks → ℕ → Option (Bool × Tasks)
unfolding wake
mark_ready core st r = do
  let t = st r
  assert (t.core_id == core)
  assert (is_blocked t.status || is_ready t.status)
  if is_ready t.status
      then some (false, st)
      else let (completed, t') = wake t.frame_location t in some (completed, with_task st r t')

-- Whether a node goes before one with the deadline `o`.
abbrev pub goes_before : ℕ → Option ℕ → Bool
goes_before wt none = true
goes_before wt (some t) = ltb wt t

-- The loop of `add`, which puts a node with the deadline `wt` before the first later one.
pub insert : ℕ → BlockedTask → List BlockedTask → List BlockedTask
insert wt node [] = node ∷ []
insert wt node (x ∷ xs) =
    if goes_before wt x.wakeup_time then node ∷ (x ∷ xs) else x ∷ insert wt node xs

-- `create_timer_abs`, if there is a time.
abbrev pub set_timer : Timers → Option ℕ → Option Timers
set_timer timers none = some timers
set_timer timers (some wt) = create_timer_abs timers Source.scheduler wt

abbrev pub place : Option ℕ → BlockedTask → List BlockedTask → List BlockedTask
place none node xs = xs ++ node ∷ []
place (some wt) node xs = insert wt node xs

pub add : BlockedTaskQueue → ℕ → Option ℕ → Option BlockedTaskQueue
unfolding insert
add q r wakeup_time = do
  let t = q.tasks r
  assert (is_running t.status)
  timers ← set_timer q.timers wakeup_time
  some (record {
    list = place wakeup_time (record { task = r; wakeup_time = wakeup_time }) q.list;
    tasks = with_task q.tasks r (record t { status = TaskStatus.blocked });
    timers = timers;
  })

-- The deadline of the first node.
abbrev pub front_time : List BlockedTask → Option ℕ
front_time [] = none
front_time (x ∷ xs) = x.wakeup_time

-- The node of the task with an identifier: those before it, the node and those after it.
pub split_at :
    Tasks → ℕ → List BlockedTask → Option (List BlockedTask × (BlockedTask × List BlockedTask))
split_at st id [] = none
split_at st id (x ∷ xs) =
    let rest = split_at st id xs in
    if (st x.task).id == id
    then some ([], (x, xs))
    else elim rest [ none ↦ none | some (before, (node, after)) ↦ some (x ∷ before, (node, after)) ]

abbrev pub is_first : List BlockedTask → Bool
is_first [] = true
is_first (x ∷ xs) = false

-- The woken task, whether it became ready, and the queue. A task that does not wait is unreachable
-- code.
pub custom_wakeup : ℕ → BlockedTaskQueue → TaskHandle → Option (ℕ × (Bool × BlockedTaskQueue))
unfolding split_at mark_ready
custom_wakeup core q task = do
  (before, (node, after)) ← split_at q.tasks task.id q.list
  timers ← set_timer q.timers (if is_first before then front_time after else none)
  (completed, tasks) ← mark_ready core q.tasks node.task
  some (node.task, (completed, record { list = before ++ after; tasks = tasks; timers = timers }))

abbrev pub has_elapsed : ℕ → Option ℕ → Bool
has_elapsed time none = false
has_elapsed time (some wt) = ltb wt time

abbrev pub is_due : ℕ → BlockedTask → Bool
is_due time x = has_elapsed time x.wakeup_time

-- `extract_if`
pub due : ℕ → List BlockedTask → List BlockedTask
due time [] = []
due time (x ∷ xs) = if is_due time x then x ∷ due time xs else due time xs

pub not_due : ℕ → List BlockedTask → List BlockedTask
not_due time [] = []
not_due time (x ∷ xs) = if is_due time x then not_due time xs else x ∷ not_due time xs

-- The tasks made ready are pushed in turn.
pub wake_all : ℕ → List BlockedTask → Tasks → PriorityTaskQueue → Option (Tasks × PriorityTaskQueue)
unfolding mark_ready
wake_all core [] st ready = some (st, ready)
wake_all core (x ∷ xs) st ready = do
  (completed, st') ← mark_ready core st x.task
  ready' ← if completed then push_ready st' x.task ready else some ready
  wake_all core xs st' ready'

pub handle_waiting_tasks :
    ℕ → ℕ → BlockedTaskQueue → PriorityTaskQueue → Option (BlockedTaskQueue × PriorityTaskQueue)
unfolding due not_due wake_all
handle_waiting_tasks core time q ready = do
  (tasks, ready') ← wake_all core (due time q.list) q.tasks ready
  let rest = not_due time q.list
  timers ← set_timer q.timers (front_time rest)
  some (record { list = rest; tasks = tasks; timers = timers }, ready')
