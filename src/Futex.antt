-- ===== src/Futex.antt =====
-- src/synch/futex.rs: tasks that wait at addresses, in a parking lot of handle queues. The pool of
-- the bitmaps of all such queues is part of the state, and so are the words at the addresses; the
-- time is an argument. Each function is what the code does under the lock of the parking lot: a
-- wait is its start and the turns of its loop, between which the task blocks. A wake changes the
-- scheduler of the core, too: Scheduler makes the tasks ready that it takes out. `none` as a result
-- is a panic, or for a wake also that its fuel ran out.
pub mod Lot
pub mod Waits
pub mod Turns
pub mod Loop
pub mod Wakes
pub mod Progress
mod Tests
use hermit_kernel.Base.{
  ℕ, zero, suc, ◌+◌, ◌-◌, ◌^◌, ◌≡◌, min, Bool, true, false, ◌&&◌, not, Option, none, some, List, [],
  ◌∷◌,
}
use hermit_kernel.Base.Tests.{◌==◌, ltb, leb, if◌then◌else◌, ◌>>=◌, ◌>>◌}
use hermit_kernel.Base.Int.{ℤ, pos, negsuc}
use hermit_kernel.Errno.{Errno, again, inval, timedout, code}
use hermit_kernel.Task.Types.{TaskHandle}
use hermit_kernel.Task.HandleQueue
use hermit_kernel.Task.HandleQueue.{TaskHandlePriorityQueue}
use hermit_kernel.Task.HandleQueue.Pool.{BitmapPool}
use hermit_kernel.Scheduler.{PerCoreScheduler, custom_wakeup}

abbrev pub i32_max : ℕ
i32_max = 2 ^ 31 - 1

pub record Futexes : Type 0 where
  pub pool : BitmapPool
  pub parking_lot : ℕ → Option TaskHandlePriorityQueue
  pub words : ℕ → ℕ

-- Writing or removing an entry of the parking lot.
abbrev pub with_entry : Futexes → ℕ → BitmapPool → Option TaskHandlePriorityQueue → Futexes
with_entry st a p o = record st {
  pool = p;
  parking_lot = λ b. if b == a then o else st.parking_lot b;
}

abbrev pub with_word : Futexes → ℕ → ℕ → Futexes
with_word st a v = record st { words = λ b. if b == a then v else st.words b }

-- `entry(address).or_default()`
abbrev pub or_default : Option TaskHandlePriorityQueue → TaskHandlePriorityQueue
or_default none = HandleQueue.new
or_default (some q) = q

-- `checked_add` of 64-bit words.
abbrev pub checked_add : ℕ → ℕ → Option ℕ
checked_add now t = if ltb (now + t) (2 ^ 64) then some (now + t) else none

abbrev pub wakeup_time : Bool → Option ℕ → ℕ → Option ℕ
wakeup_time relative none now = none
wakeup_time relative (some t) now = if relative then checked_add now t else some t

-- The result of starting to wait: EAGAIN, or that the task blocks until the time.
pub data Start : Type 0 where
  refused : Start
  blocks : Option ℕ → Start

-- The current task joins the queue at the address.
pub park : Futexes → ℕ → TaskHandle → Option Futexes
park st a task = do
  (p, q) ← HandleQueue.push st.pool (or_default (st.parking_lot a)) task
  some (with_entry st a p (some q))

-- `futex_wait` until it first gives up the processor.
pub wait : Futexes → ℕ → ℕ → Option ℕ → Bool → ℕ → TaskHandle → Option (Start × Futexes)
unfolding park
wait st a expected timeout relative now task =
    if not (st.words a == expected)
    then some (refused, st)
    else do st' ← park st a task; some (blocks (wakeup_time relative timeout now), st')

-- `futex_wait_and_set` until it first gives up the processor: the word is exchanged in any case.
pub wait_and_set : Futexes → ℕ → ℕ → Option ℕ → Bool → ℕ → ℕ → TaskHandle → Option (Start × Futexes)
unfolding park
wait_and_set st a expected timeout relative new_value now task =
    let st' : Futexes = with_word st a new_value in
    if not (st.words a == expected)
    then some (refused, st')
    else do st₂ ← park st' a task; some (blocks (wakeup_time relative timeout now), st₂)

-- How a turn of the loop ends: the call returns 0 or -ETIMEDOUT, or the task blocks again.
pub data Turn : Type 0 where
  was_woken timed_out blocks_again : Turn

abbrev pub has_come : Option ℕ → ℕ → Bool
has_come none now = false
has_come (some t) now = leb t now

-- The queue of an entry after a change, which goes if it is empty.
pub keep_nonempty : Futexes → ℕ → BitmapPool → TaskHandlePriorityQueue → Option Futexes
keep_nonempty st a p q = do
  (empty, p', q') ← HandleQueue.is_empty p q
  some (with_entry st a p' (if empty then none else some q'))

-- The timeout has come: the task takes itself out, unless it was woken.
pub leave : Futexes → ℕ → TaskHandle → Option TaskHandlePriorityQueue → Option (Turn × Futexes)
unfolding keep_nonempty
leave st a task none = some (was_woken, st)
leave st a task (some q) = do
  (removed, p, q') ← HandleQueue.remove st.pool q task
  st' ← keep_nonempty st a p q'
  some (if removed then timed_out else was_woken, st')

-- The timeout has not come: the task was woken if it does not stand in the queue.
pub look : Futexes → TaskHandle → Option TaskHandlePriorityQueue → Option (Turn × Futexes)
look st task none = some (was_woken, st)
look st task (some q) = do
  queued ← HandleQueue.contains q task
  some (if queued then blocks_again else was_woken, st)

-- A turn of the loop of both waits, at the time `now`.
pub wait_turn : Futexes → ℕ → Option ℕ → ℕ → TaskHandle → Option (Turn × Futexes)
unfolding leave look
wait_turn st a until now task =
    if has_come until now
    then leave st a task (st.parking_lot a)
    else look st task (st.parking_lot a)

abbrev pub saturating_inc : ℕ → ℕ
saturating_inc n = min (n + 1) i32_max

-- The loop of the wakes. The result is the number of woken tasks.
pub wake_loop :
    ℕ
    → ℕ
    → ℕ
    → ℕ
    → BitmapPool
    → TaskHandlePriorityQueue
    → PerCoreScheduler
    → Option (ℕ × (BitmapPool × (TaskHandlePriorityQueue × PerCoreScheduler)))
wake_loop zero core count woken p q s = none
wake_loop (suc fuel) core count woken p q s =
    if woken == count && not (count == i32_max) then some (woken, (p, (q, s))) else do
      (next, p', q') ← HandleQueue.pop p q
      elim next [
        | none ↦ some (woken, (p', (q', s)))
        | some task ↦ do
          s' ← custom_wakeup core s task
          wake_loop fuel core count (saturating_inc woken) p' q' s'
      ]

abbrev pub negative : Errno → ℤ
negative e = negsuc (code e - 1)

-- The tasks at an entry are woken.
pub wake_entry :
    ℕ
    → ℕ
    → Futexes
    → PerCoreScheduler
    → ℕ
    → ℕ
    → TaskHandlePriorityQueue
    → Option (ℕ × (Futexes × PerCoreScheduler))
unfolding wake_loop keep_nonempty
wake_entry fuel core st s a count q = do
  (n, (p, (q', s'))) ← wake_loop fuel core count 0 st.pool q s
  st' ← keep_nonempty st a p q'
  some (n, (st', s'))

-- Waking the tasks of an entry, if there is one.
pub wake_found :
    ℕ
    → ℕ
    → Futexes
    → PerCoreScheduler
    → ℕ
    → ℕ
    → Option TaskHandlePriorityQueue
    → Option (ℤ × (Futexes × PerCoreScheduler))
unfolding wake_entry
wake_found fuel core st s a count none = some (pos 0, (st, s))
wake_found fuel core st s a count (some q) = do
  (n, out) ← wake_entry fuel core st s a count q
  some (pos n, out)

-- `futex_wake`
pub wake : ℕ → ℕ → Futexes → PerCoreScheduler → ℕ → ℤ → Option (ℤ × (Futexes × PerCoreScheduler))
unfolding wake_found
wake fuel core st s a (negsuc n) = some (negative inval, (st, s))
wake fuel core st s a (pos count) = wake_found fuel core st s a count (st.parking_lot a)

-- Waking the tasks of an entry, or setting the word.
pub wake_found_or_set :
    ℕ
    → ℕ
    → Futexes
    → PerCoreScheduler
    → ℕ
    → ℕ
    → ℕ
    → Option TaskHandlePriorityQueue
    → Option (ℤ × (Futexes × PerCoreScheduler))
unfolding wake_entry
wake_found_or_set fuel core st s a count new_value none =
    some (pos 0, (with_word st a new_value, s))
wake_found_or_set fuel core st s a count new_value (some q) = do
  (n, (st', s')) ← wake_entry fuel core st s a count q
  some (pos n, (if n == 0 then with_word st' a new_value else st', s'))

-- `futex_wake_or_set`
pub wake_or_set :
    ℕ → ℕ → Futexes → PerCoreScheduler → ℕ → ℤ → ℕ → Option (ℤ × (Futexes × PerCoreScheduler))
unfolding wake_found_or_set
wake_or_set fuel core st s a (negsuc n) new_value = some (negative inval, (st, s))
wake_or_set fuel core st s a (pos count) new_value =
    wake_found_or_set fuel core st s a count new_value (st.parking_lot a)
