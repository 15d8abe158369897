-- ===== src/RecursiveMutex.antt =====
-- src/synch/recmutex.rs: a mutex that its owner may acquire again, whose waiting tasks stand in a
-- handle queue. The pool of the bitmaps of all such queues is passed along; `none` as a result is a
-- panic. Each function is what the code does under the lock of the mutex.
pub mod Owner
mod Tests
use hermit_kernel.Base.{ℕ, ◌+◌, ◌-◌, ◌%◌, ◌^◌, Bool, true, false, Option, none, some}
use hermit_kernel.Base.Tests.{◌==◌, ltb, if◌then◌else◌, ◌>>=◌}
use hermit_kernel.Task.Types.{TaskHandle}
use hermit_kernel.Task.HandleQueue
use hermit_kernel.Task.HandleQueue.{TaskHandlePriorityQueue}
use hermit_kernel.Task.HandleQueue.Pool.{BitmapPool}

-- `count` is a `usize`.
pub record RecursiveMutexState : Type 0 where
  pub current_tid : Option ℕ
  pub count : ℕ
  pub queue : TaskHandlePriorityQueue

pub new : RecursiveMutexState
new = record { current_tid = none; count = 0; queue = HandleQueue.new }

-- The task joins the queue and blocks.
pub join :
    BitmapPool
    → RecursiveMutexState
    → TaskHandle
    → Option (Bool × (BitmapPool × RecursiveMutexState))
join p m task = do
  (p', q) ← HandleQueue.push p m.queue task
  some (false, (p', record m { queue = q }))

-- One turn of the loop of `acquire`. The first part is whether the task has the mutex then.
pub acquire_turn :
    BitmapPool
    → RecursiveMutexState
    → ℕ
    → TaskHandle
    → Option (Bool × (BitmapPool × RecursiveMutexState))
unfolding join
acquire_turn p m tid task = elim m.current_tid [
  | none ↦ some (true, (p, record m { current_tid = some tid; count = 1 }))
  | some current_tid ↦
      if current_tid == tid
      then some (true, (p, record m { count = (m.count + 1) % 2 ^ 64 }))
      else join p m task
]

-- The mutex is given up. The first part is the task to be woken.
pub hand_over :
    BitmapPool
    → RecursiveMutexState
    → Option (Option TaskHandle × (BitmapPool × RecursiveMutexState))
hand_over p m = do
  (task, p', q) ← HandleQueue.pop p m.queue
  some (task, (p', record m { current_tid = none; queue = q }))

pub release :
    BitmapPool
    → RecursiveMutexState
    → Option (Option TaskHandle × (BitmapPool × RecursiveMutexState))
unfolding hand_over
release p m =
    let left = if ltb 0 m.count then m.count - 1 else m.count in
    if ltb 0 left
    then some (none, (p, record m { count = left }))
    else hand_over p (record m { count = left })
