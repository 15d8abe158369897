-- ===== src/Semaphore/Permits.antt =====
-- Permits and the tasks that wait for them.
use hermit_kernel.Base.{ℕ, ◌<◌, ◌≡◌, refl, inl, inr, Bool, Option, none, some, List, [], ◌∷◌}
use hermit_kernel.Base.Tests.{if◌then◌else◌, Bool-cases}
use hermit_kernel.Base.Int.{ℤ}
use hermit_kernel.Task.Types.{TaskHandle}
use hermit_kernel.Task.Levels.{no_priorities}
use hermit_kernel.Task.Levels.Priority.{insert}
use hermit_kernel.Task.HandleQueue.Pool.{BitmapPool}
use hermit_kernel.Task.HandleQueue.Repr.{IsPool, IsUsable, levels, waiting, priority_of}
use hermit_kernel.Task.HandleQueue.Order.{push_handle_refines}
use hermit_kernel.Task.HandleQueue.Take.{pop_handle_refines}
use hermit_kernel.Task.HandleQueue.Remove.{OnlyAt, without, remove_handle_refines}
use hermit_kernel.Semaphore.{
  SemaphoreState, Turn, is_positive, decremented, incremented, has_elapsed, acquire_turn, release,
  give_up, join,
}

-- The first of those that wait.
abbrev pub first : List TaskHandle → Option TaskHandle
first [] = none
first (x ∷ xs) = some x

abbrev pub others : List TaskHandle → List TaskHandle
others [] = []
others (x ∷ xs) = xs

-- What releasing a permit does.
pub record Releases (p : BitmapPool) (s : SemaphoreState)
    (out : Option (Option TaskHandle × (BitmapPool × SemaphoreState))) : Type 0 where
  pub pool : BitmapPool
  pub state : SemaphoreState
  pub returns : out ≡ some (first (waiting s.queue), (pool, state))
  pub is_pool : IsPool pool
  pub usable : IsUsable pool state.queue
  pub left : waiting state.queue ≡ others (waiting s.queue)
  pub count : state.count ≡ incremented s.count

-- Releasing a permit does not panic on a usable queue. It adds one to the count, wakes the most
-- urgent task that waits, of several the one that waits longest, and takes only that one out.
pub release_lem :
    (p : BitmapPool) (s : SemaphoreState)
    → IsPool p
    → IsUsable p s.queue
    → Releases p s (release p s)
unfolding release
release_lem p s v u = elim (pop_handle_refines p s.queue v u) [
  | inl d ↦ record {
    pool = d.pool;
    state = record { count = incremented s.count; queue = d.queue };
    returns = rw (d.returns, d.nothing) refl;
    is_pool = d.is_pool;
    usable = inl d.allocated;
    left = rw (d.nothing) (d.still_nothing);
    count = refl;
  }
  | inr d ↦ record {
    pool = d.pool;
    state = record { count = incremented s.count; queue = d.queue };
    returns = rw (d.returns, d.taken) refl;
    is_pool = d.is_pool;
    usable = inl d.allocated;
    left = rw (d.taken) refl;
    count = refl;
  }
]

-- How a turn has to end.
abbrev pub outcome : SemaphoreState → Option ℕ → ℕ → Bool → Turn
outcome s wakeup_time now is_completed =
    if is_positive s.count
    then Turn.acquired
    else if has_elapsed wakeup_time now
    then Turn.timed_out
    else if is_completed
    then Turn.blocks
    else Turn.snoozes

-- The tasks that wait after a turn.
abbrev pub queued : Turn → TaskHandle → List TaskHandle → List TaskHandle
queued Turn.acquired task xs = xs
queued Turn.timed_out task xs = without task.id xs
queued Turn.blocks task xs = insert priority_of task xs
queued Turn.snoozes task xs = xs

abbrev pub count_after : Turn → ℤ → ℤ
count_after Turn.acquired c = decremented c
count_after _ c = c

pub record Turns (p : BitmapPool) (s : SemaphoreState) (task : TaskHandle) (turn : Turn)
    (out : Option (Turn × (BitmapPool × SemaphoreState))) : Type 0 where
  pub pool : BitmapPool
  pub state : SemaphoreState
  pub returns : out ≡ some (turn, (pool, state))
  pub is_pool : IsPool pool
  pub usable : IsUsable pool state.queue
  pub waits : waiting state.queue ≡ queued turn task (waiting s.queue)
  pub count : state.count ≡ count_after turn s.count

give_up_lem :
    (p : BitmapPool) (s : SemaphoreState) (task : TaskHandle)
    → IsPool p
    → IsUsable p s.queue
    → task.priority < no_priorities
    → OnlyAt task.id task.priority (levels s.queue)
    → Turns p s task Turn.timed_out (give_up p s task)
unfolding give_up
give_up_lem p s task v u small once =
    let d = remove_handle_refines p s.queue task v small once u in
    record {
      pool = d.pool;
      state = record s { queue = d.queue };
      returns = rw (d.returns) refl;
      is_pool = d.is_pool;
      usable = d.usable;
      waits = d.left;
      count = refl;
    }

join_lem :
    (p : BitmapPool) (s : SemaphoreState) (task : TaskHandle)
    → IsPool p
    → IsUsable p s.queue
    → task.priority < no_priorities
    → Turns p s task Turn.blocks (join p s task)
unfolding join
join_lem p s task v u small =
    let d = push_handle_refines p s.queue task v u small in
    record {
      pool = d.pool;
      state = record s { queue = d.queue };
      returns = rw (d.returns) refl;
      is_pool = d.is_pool;
      usable = inl d.allocated;
      waits = d.placed;
      count = refl;
    }

stay :
    (p : BitmapPool) (s : SemaphoreState) (task : TaskHandle)
    → IsPool p
    → IsUsable p s.queue
    → Turns p s task Turn.snoozes (some (Turn.snoozes, (p, s)))
stay p s task v u = record {
  pool = p;
  state = s;
  returns = refl;
  is_pool = v;
  usable = u;
  waits = refl;
  count = refl;
}

-- A turn of the loop of `acquire` does not panic on a usable queue, for a task that waits at no
-- other priority than its own. It takes a permit if there is one; else it gives up and leaves the
-- queue if the deadline has passed, joins the queue behind all that are at least as urgent if it is
-- to block, or changes nothing.
pub acquire_turn_lem :
    (p : BitmapPool) (s : SemaphoreState) (task : TaskHandle) (wakeup_time : Option ℕ) (now : ℕ)
    (is_completed : Bool)
    → IsPool p
    → IsUsable p s.queue
    → task.priority < no_priorities
    → OnlyAt task.id task.priority (levels s.queue)
    → Turns p s task
        (outcome s wakeup_time now is_completed)
        (acquire_turn p s task wakeup_time now is_completed)
unfolding acquire_turn
acquire_turn_lem p s task wakeup_time now is_completed v u small once =
    elim (Bool-cases (is_positive s.count)) [
      | inl e ↦ rw e (record {
        pool = p;
        state = record s { count = decremented s.count };
        returns = refl;
        is_pool = v;
        usable = u;
        waits = refl;
        count = refl;
      })
      | inr e ↦ elim (Bool-cases (has_elapsed wakeup_time now)) [
        | inl f ↦ rw (e, f) (give_up_lem p s task v u small once)
        | inr f ↦ elim (Bool-cases is_completed) [
          | inl g ↦ rw (e, f, g) (join_lem p s task v u small)
          | inr g ↦ rw (e, f, g) (stay p s task v u)
        ]
      ]
    ]
