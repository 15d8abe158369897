-- ===== src/Semaphore.antt =====
-- src/synch/semaphore.rs: a counting semaphore whose waiting tasks stand in a handle queue. The
-- pool of the bitmaps of all such queues is passed along; `none` as a result is a panic. Each
-- function is what the code does under the lock of the semaphore.
pub mod Permits
mod Tests
use hermit_kernel.Base.{
  ℕ, zero, suc, ◌+◌, ◌-◌, ◌^◌, Bool, true, false, Option, none, some, List, [], ◌∷◌,
}
use hermit_kernel.Base.Tests.{◌==◌, ltb, if◌then◌else◌, ◌>>=◌}
use hermit_kernel.Base.Int.{ℤ, pos, negsuc}
use hermit_kernel.Task.Types.{TaskHandle}
use hermit_kernel.Task.HandleQueue
use hermit_kernel.Task.HandleQueue.{TaskHandlePriorityQueue}
use hermit_kernel.Task.HandleQueue.Pool.{BitmapPool}

-- `count` is an `isize`.
pub record SemaphoreState : Type 0 where
  pub count : ℤ
  pub queue : TaskHandlePriorityQueue

pub new : ℤ → SemaphoreState
new count = record { count = count; queue = HandleQueue.new }

-- `count > 0`
abbrev pub is_positive : ℤ → Bool
is_positive (pos n) = ltb 0 n
is_positive (negsuc n) = false

-- `count -= 1` of a positive count.
abbrev pub decremented : ℤ → ℤ
decremented (pos n) = pos (n - 1)
decremented (negsuc n) = negsuc (n + 1)

-- `count += 1` of an `isize`, which wraps past its greatest value.
abbrev pub incremented : ℤ → ℤ
incremented (pos n) = if n == 2 ^ 63 - 1 then negsuc (2 ^ 63 - 1) else pos (n + 1)
incremented (negsuc zero) = pos 0
incremented (negsuc (suc n)) = negsuc n

-- How a turn of the loop of `acquire` ends.
pub data Turn : Type 0 where
  acquired timed_out blocks snoozes : Turn

abbrev pub has_elapsed : Option ℕ → ℕ → Bool
has_elapsed none now = false
has_elapsed (some t) now = ltb t now

-- The task leaves the queue, since its deadline has passed.
pub give_up :
    BitmapPool → SemaphoreState → TaskHandle → Option (Turn × (BitmapPool × SemaphoreState))
give_up p s task = do
  (found, p', q) ← HandleQueue.remove p s.queue task
  some (timed_out, (p', record s { queue = q }))

-- The task joins the queue and blocks.
pub join : BitmapPool → SemaphoreState → TaskHandle → Option (Turn × (BitmapPool × SemaphoreState))
join p s task = do
  (p', q) ← HandleQueue.push p s.queue task
  some (blocks, (p', record s { queue = q }))

-- One turn for the current task, at the time `now`. Without several cores `is_completed` is true.
pub acquire_turn :
    BitmapPool
    → SemaphoreState
    → TaskHandle
    → Option ℕ
    → ℕ
    → Bool
    → Option (Turn × (BitmapPool × SemaphoreState))
unfolding give_up join
acquire_turn p s task wakeup_time now is_completed =
    if is_positive s.count
    then some (acquired, (p, record s { count = decremented s.count }))
    else if has_elapsed wakeup_time now
    then give_up p s task
    else if is_completed
    then join p s task
    else some (snoozes, (p, s))

pub try_acquire : SemaphoreState → Bool × SemaphoreState
try_acquire s =
    if is_positive s.count then (true, record s { count = decremented s.count }) else (false, s)

-- The first part is the task to be woken.
pub release :
    BitmapPool → SemaphoreState → Option (Option TaskHandle × (BitmapPool × SemaphoreState))
release p s = do
  (task, p', q) ← HandleQueue.pop p s.queue
  some (task, (p', record { count = incremented s.count; queue = q }))
