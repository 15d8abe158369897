-- ===== src/Task/ReadyQueue.antt =====
-- `PriorityTaskQueue` of src/scheduler/task/mod.rs, the queue of tasks that are ready to run.
-- It holds references; `none` as a result of an operation is a panic by an index out of bounds.
pub mod Order
pub mod Serve
pub mod Change
mod Tests
use hermit_kernel.Base.{ℕ, ◌+◌, ◌≡◌, Bool, true, false, Option, none, some, List, [], ◌∷◌, ◌++◌}
use hermit_kernel.Base.Tests.{◌==◌, ltb, if◌then◌else◌, ◌>>=◌, ◌>>◌, assert}
use hermit_kernel.Base.Lists.{length, get_or, set, take, drop, replicate}
use hermit_kernel.Base.Bits.{set_bit, clear_bit}
use hermit_kernel.Task.Types.{Task, Tasks, TaskHandle, idle_prio}
use hermit_kernel.Task.Levels.{no_priorities, msb, level, is_empty as no_entry}

pub record PriorityTaskQueue : Type 0 where
  pub queues : List (List ℕ)
  pub prio_bitmap : ℕ

pub new : PriorityTaskQueue
new = record { queues = replicate no_priorities []; prio_bitmap = 0 }

pub push : Tasks → ℕ → PriorityTaskQueue → Option PriorityTaskQueue
push st task q = do
  let i = (st task).prio
  assert (ltb i (length q.queues))
  some (record q {
    queues = set q.queues i (level q.queues i ++ task ∷ []);
    prio_bitmap = set_bit q.prio_bitmap i;
  })

-- `pop_front`
abbrev pub pop_front {ℓ} : {A : Type ℓ} → List A → Option A × List A
pop_front [] = (none, [])
pop_front (x ∷ xs) = (some x, xs)

-- The queue with `xs` as level `i`, whose digit goes when nothing is left.
abbrev pub cut_level : PriorityTaskQueue → ℕ → List ℕ → PriorityTaskQueue
cut_level q i xs = record q {
  queues = set q.queues i xs;
  prio_bitmap = if no_entry xs then clear_bit q.prio_bitmap i else q.prio_bitmap;
}

pub pop_from_queue : PriorityTaskQueue → ℕ → Option (Option ℕ × PriorityTaskQueue)
pop_from_queue q i = do
  assert (ltb i (length q.queues))
  let (task, rest) = pop_front (level q.queues i)
  some (task, cut_level q i rest)

pub remove_from_queue : PriorityTaskQueue → ℕ → ℕ → Option (Option ℕ × PriorityTaskQueue)
remove_from_queue q task_index i = do
  assert (ltb i (length q.queues))
  let queue = level q.queues i
  let (element, rest) = pop_front (drop task_index queue)
  if ltb (length queue) task_index
      then some (none, q)
      else some (element, cut_level q i (take task_index queue ++ rest))

pub is_empty : PriorityTaskQueue → Bool
is_empty q = q.prio_bitmap == 0

pub pop : PriorityTaskQueue → Option (Option ℕ × PriorityTaskQueue)
unfolding pop_from_queue
pop q = elim (msb q.prio_bitmap) [ none ↦ some (none, q) | some i ↦ pop_from_queue q i ]

pub pop_with_prio : PriorityTaskQueue → ℕ → Option (Option ℕ × PriorityTaskQueue)
unfolding pop_from_queue
pop_with_prio q prio = elim (msb q.prio_bitmap) [
  | none ↦ some (none, q)
  | some i ↦ if ltb i prio then some (none, q) else pop_from_queue q i
]

pub get_highest_priority : PriorityTaskQueue → ℕ
get_highest_priority q = elim (msb q.prio_bitmap) [ none ↦ idle_prio | some i ↦ i ]

-- `iter().position`
pub position : Tasks → ℕ → List ℕ → Option ℕ
position st id [] = none
position st id (r ∷ rs) = elim ((st r).id == id) [
  | true ↦ some 0
  | false ↦ elim (position st id rs) [ none ↦ none | some k ↦ some (k + 1) ]
]

-- The tasks with the priority of one of them given anew.
abbrev pub with_prio : Tasks → ℕ → ℕ → Tasks
with_prio st r prio x = if x == r then record (st x) { prio = prio } else st x

pub readd : Tasks → ℕ → ℕ → PriorityTaskQueue → Option (Bool × Tasks × PriorityTaskQueue)
readd st r prio q = do let st' = with_prio st r prio; q' ← push st' r q; some (true, st', q')

-- The first part is whether the result is `Ok`.
pub set_priority :
    Tasks → PriorityTaskQueue → TaskHandle → ℕ → Option (Bool × Tasks × PriorityTaskQueue)
unfolding readd
set_priority st q handle prio = do
  let old_priority = handle.priority
  assert (ltb old_priority (length q.queues))
  elim (position st handle.id (level q.queues old_priority)) [
    | none ↦ some (false, st, q)
    | some index ↦ do
      (task, q') ← remove_from_queue q index old_priority
      elim task [ none ↦ some (false, st, q') | some r ↦ readd st r prio q' ]
  ]
