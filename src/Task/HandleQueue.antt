-- ===== src/Task/HandleQueue.antt =====
-- `TaskHandlePriorityQueue` of src/scheduler/task/mod.rs, the queue of the tasks that wait for a
-- semaphore, mutex or futex. Its bitmap lies in a static pool, which each operation takes and gives
-- back. `none` as a result of an operation is a panic: the pool is used up, or an index is out of
-- bounds.
pub mod Pool
pub mod Repr
pub mod Order
pub mod Take
pub mod Remove
pub mod Sharing
pub mod Empty
pub mod Absent
mod Tests
use hermit_kernel.Base.{
  ℕ, ◌+◌, ◌≡◌, Bool, true, false, ◌||◌, Option, none, some, List, [], ◌∷◌, ◌++◌,
}
use hermit_kernel.Base.Tests.{◌==◌, ltb, if◌then◌else◌, ◌>>=◌, ◌>>◌, assert}
use hermit_kernel.Base.Lists.{length, get_or, get_elem?, set, replicate}
use hermit_kernel.Base.Bits.{set_bit, clear_bit}
use hermit_kernel.Task.Types.{TaskHandle}
use hermit_kernel.Task.Levels.{no_priorities, msb, is_empty as no_entry}
use hermit_kernel.Task.ReadyQueue.{pop_front}
use Pool.{BitmapPool, alloc_bitmap_id}

pub record TaskHandlePriorityQueue : Type 0 where
  pub queues : List (Option (List TaskHandle))
  pub prio_bitmap_id : ℕ

pub new : TaskHandlePriorityQueue
new = record { queues = replicate no_priorities none; prio_bitmap_id = 0 }

-- An identifier of 0 stands for a bitmap that is not yet allocated.
pub ensure_bitmap :
    BitmapPool → TaskHandlePriorityQueue → Option (ℕ × BitmapPool × TaskHandlePriorityQueue)
ensure_bitmap p q = if q.prio_bitmap_id == 0 then allocated else some (q.prio_bitmap_id, p, q)
  where
    allocated : Option (ℕ × BitmapPool × TaskHandlePriorityQueue)
    allocated = do
      (new_id, p') ← alloc_bitmap_id p
      some (new_id, p', record q { prio_bitmap_id = new_id })

-- The bitmap is read.
pub bitmap :
    BitmapPool → TaskHandlePriorityQueue → Option (ℕ × BitmapPool × TaskHandlePriorityQueue)
unfolding ensure_bitmap
bitmap p q = do (id, p', q') ← ensure_bitmap p q; bits ← get_elem? p'.slots id; some (bits, p', q')

-- The bitmap is read and written.
pub bitmap_mut :
    (ℕ → ℕ) → BitmapPool → TaskHandlePriorityQueue → Option (BitmapPool × TaskHandlePriorityQueue)
unfolding ensure_bitmap
bitmap_mut f p q = do
  (id, p', q') ← ensure_bitmap p q
  bits ← get_elem? p'.slots id
  some (record p' { slots = set p'.slots id (f bits) }, q')

pub is_empty :
    BitmapPool → TaskHandlePriorityQueue → Option (Bool × BitmapPool × TaskHandlePriorityQueue)
unfolding bitmap
is_empty p q = do (bits, p', q') ← bitmap p q; some (bits == 0, p', q')

unfoldable pub any_id : ℕ → List TaskHandle → Bool
any_id id [] = false
any_id id (queued ∷ rest) = queued.id == id || any_id id rest

pub contains : TaskHandlePriorityQueue → TaskHandle → Option Bool
unfolding any_id
contains q task = do
  queue ← get_elem? q.queues task.priority
  some (elim queue [ none ↦ false | some l ↦ any_id task.id l ])

-- `push_back`, on a new deque where there was none.
abbrev pub with_back : Option (List TaskHandle) → TaskHandle → List TaskHandle
with_back none task = task ∷ []
with_back (some l) task = l ++ task ∷ []

pub push :
    BitmapPool
    → TaskHandlePriorityQueue
    → TaskHandle
    → Option (BitmapPool × TaskHandlePriorityQueue)
unfolding bitmap_mut
push p q task = do
  let i = task.priority
  (p', q') ← bitmap_mut (λ bits. set_bit bits i) p q
  queue ← get_elem? q'.queues i
  some (p', record q' { queues = set q'.queues i (some (with_back queue task)) })

-- The digit of level `i` goes if nothing is left there.
pub clear_if_empty :
    ℕ
    → List TaskHandle
    → BitmapPool
    → TaskHandlePriorityQueue
    → Option (BitmapPool × TaskHandlePriorityQueue)
unfolding bitmap_mut
clear_if_empty i rest p q =
    if no_entry rest then bitmap_mut (λ bits. clear_bit bits i) p q else some (p, q)

pub pop_from_queue :
    BitmapPool
    → TaskHandlePriorityQueue
    → ℕ
    → Option (Option TaskHandle × BitmapPool × TaskHandlePriorityQueue)
unfolding clear_if_empty
pop_from_queue p q i = do
  queue ← get_elem? q.queues i
  elim queue [
    | none ↦ some (none, p, q)
    | some l ↦ do
      let (task, rest) = pop_front l
      (p', q') ← clear_if_empty i rest p (record q { queues = set q.queues i (some rest) })
      some (task, p', q')
  ]

pub pop :
    BitmapPool
    → TaskHandlePriorityQueue
    → Option (Option TaskHandle × BitmapPool × TaskHandlePriorityQueue)
unfolding bitmap pop_from_queue
pop p q = do
  (bits, p', q') ← bitmap p q
  elim (msb bits) [ none ↦ some (none, p', q') | some i ↦ pop_from_queue p' q' i ]

-- The loop of `remove`: every entry with the identifier goes.
pub remove_id : ℕ → List TaskHandle → Bool × List TaskHandle
remove_id id [] = (false, [])
remove_id id (queued ∷ rest) =
    let (success, left) = remove_id id rest in
    if queued.id == id then (true, left) else (success, queued ∷ left)

pub remove :
    BitmapPool
    → TaskHandlePriorityQueue
    → TaskHandle
    → Option (Bool × BitmapPool × TaskHandlePriorityQueue)
unfolding remove_id clear_if_empty
remove p q task = do
  let i = task.priority
  queue ← get_elem? q.queues i
  elim queue [
    | none ↦ some (false, p, q)
    | some l ↦ do
      let (success, rest) = remove_id task.id l
      (p', q') ← clear_if_empty i rest p (record q { queues = set q.queues i (some rest) })
      some (success, p', q')
  ]
