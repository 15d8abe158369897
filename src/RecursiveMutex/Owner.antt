-- ===== src/RecursiveMutex/Owner.antt =====
-- Who owns the mutex, and for how long.
use hermit_kernel.Base.{
  ℕ, zero, suc, ◌+◌, ◌-◌, ◌<◌, ◌≡◌, ◌%◌, ◌^◌, refl, ap, ◌∙◌, inl, inr, Bool, true, false, Option,
  none, some, arith,
}
use hermit_kernel.Base.Tests.{◌==◌, ==_refl, ltb, ◌>>=◌}
use hermit_kernel.Task.Types.{TaskHandle}
use hermit_kernel.Task.Levels.{no_priorities}
use hermit_kernel.Task.Levels.Priority.{insert}
use hermit_kernel.Task.HandleQueue.{TaskHandlePriorityQueue}
use hermit_kernel.Task.HandleQueue.Pool.{BitmapPool}
use hermit_kernel.Task.HandleQueue.Repr.{IsPool, IsUsable, waiting, priority_of}
use hermit_kernel.Task.HandleQueue.Order.{push_handle_refines}
use hermit_kernel.Task.HandleQueue.Take.{pop_handle_refines}
use hermit_kernel.Semaphore.Permits.{first, others}
use hermit_kernel.RecursiveMutex.{RecursiveMutexState, acquire_turn, join, release, hand_over}

-- What giving up the mutex does.
pub record HandsOver (p : BitmapPool) (q : TaskHandlePriorityQueue)
    (out : Option (Option TaskHandle × (BitmapPool × RecursiveMutexState))) : Type 0 where
  pub pool : BitmapPool
  pub state : RecursiveMutexState
  pub returns : out ≡ some (first (waiting q), (pool, state))
  pub is_pool : IsPool pool
  pub usable : IsUsable pool state.queue
  pub left : waiting state.queue ≡ others (waiting q)
  pub free : state.current_tid ≡ none

hand_over_lem :
    (p : BitmapPool) (m : RecursiveMutexState)
    → IsPool p
    → IsUsable p m.queue
    → HandsOver p m.queue (hand_over p m)
unfolding hand_over
hand_over_lem p m v u = elim (pop_handle_refines p m.queue v u) [
  | inl d ↦ record {
    pool = d.pool;
    state = record m { current_tid = none; queue = d.queue };
    returns = rw (d.returns, d.nothing) refl;
    is_pool = d.is_pool;
    usable = inl d.allocated;
    left = rw (d.nothing) (d.still_nothing);
    free = refl;
  }
  | inr d ↦ record {
    pool = d.pool;
    state = record m { current_tid = none; queue = d.queue };
    returns = rw (d.returns, d.taken) refl;
    is_pool = d.is_pool;
    usable = inl d.allocated;
    left = rw (d.taken) refl;
    free = refl;
  }
]

-- A task acquires the mutex `n` times.
pub acquire_times :
    ℕ
    → BitmapPool
    → RecursiveMutexState
    → ℕ
    → TaskHandle
    → Option (BitmapPool × RecursiveMutexState)
acquire_times zero p m tid task = some (p, m)
acquire_times (suc n) p m tid task = do
  (owned, (p', m')) ← acquire_turn p m tid task
  acquire_times n p' m' tid task

-- The mutex is released `n` times; the result is `none` also if a task is woken by one of them.
pub release_times : ℕ → BitmapPool → RecursiveMutexState → Option (BitmapPool × RecursiveMutexState)
release_times zero p m = some (p, m)
release_times (suc n) p m = do
  (task, (p', m')) ← release p m
  elim task [ none ↦ release_times n p' m' | some woken ↦ none ]

abbrev pub owned_by : RecursiveMutexState → ℕ → ℕ → RecursiveMutexState
owned_by m tid count = record m { current_tid = some tid; count = count }

acquire_again :
    (n c : ℕ) (p : BitmapPool) (m : RecursiveMutexState) (tid : ℕ) (task : TaskHandle)
    → c + n < 2 ^ 64
    → acquire_times n p (owned_by m tid c) tid task ≡ some (p, owned_by m tid (c + n))
unfolding acquire_times acquire_turn
acquire_again zero c p m tid task h = ap (λ k. some (p, owned_by m tid k)) (omega arith)
acquire_again (suc n) c p m tid task h =
    let w : (c + 1) % 2 ^ 64 ≡ c + 1 = omega arith in
    let e : c + 1 + n ≡ c + suc n = omega arith in
    rw (==_refl tid, w)
      (acquire_again n (c + 1) p m tid task (omega arith) ∙ ap (λ k. some (p, owned_by m tid k)) e)

release_step :
    (n : ℕ) (p : BitmapPool) (m : RecursiveMutexState) (tid : ℕ)
    → release p (owned_by m tid (suc (suc n))) ≡ some (none, (p, owned_by m tid (suc n)))
unfolding release
release_step n p m tid =
    let e : ltb 0 (suc (suc n)) ≡ true = ground arith in
    let f : suc (suc n) - 1 ≡ suc n = omega arith in
    let g : ltb 0 (suc n) ≡ true = ground arith in rw (e, f, g) refl

release_again :
    (n : ℕ) (p : BitmapPool) (m : RecursiveMutexState) (tid : ℕ)
    → release_times n p (owned_by m tid (suc n)) ≡ some (p, owned_by m tid 1)
unfolding release_times release
release_again zero p m tid = refl
release_again (suc n) p m tid = rw (release_step n p m tid) (release_again n p m tid)

-- A task that acquires a free mutex `n + 1` times owns it. Released `n` times it is still owned by
-- this task, with no task woken, and at the next release it is free and the first task that waits
-- by priority and age is woken, and only that one. No step of this panics.
pub nested_lem :
    (n : ℕ) (p : BitmapPool) (m : RecursiveMutexState) (tid : ℕ) (task : TaskHandle)
    → IsPool p
    → IsUsable p m.queue
    → m.current_tid ≡ none
    → suc n < 2 ^ 64
    → (acquire_times (suc n) p m tid task ≡ some (p, owned_by m tid (suc n)))
      × (release_times n p (owned_by m tid (suc n)) ≡ some (p, owned_by m tid 1))
      × HandsOver p m.queue (release p (owned_by m tid 1))
unfolding acquire_times acquire_turn release
nested_lem n p m tid task v u free small =
    let e : 1 + n ≡ suc n = omega arith in
    (
      rw free
          (acquire_again n 1 p m tid task (omega arith) ∙ ap (λ k. some (p, owned_by m tid k)) e),
      release_again n p m tid,
      hand_over_lem p (owned_by m tid 0) v u,
    )

-- A task that does not own the mutex waits behind all that are at least as urgent, and the owner
-- and its count stay.
pub record Waits (p : BitmapPool) (m : RecursiveMutexState) (task : TaskHandle)
    (out : Option (Bool × (BitmapPool × RecursiveMutexState))) : Type 0 where
  pub pool : BitmapPool
  pub state : RecursiveMutexState
  pub returns : out ≡ some (false, (pool, state))
  pub is_pool : IsPool pool
  pub usable : IsUsable pool state.queue
  pub waits : waiting state.queue ≡ insert priority_of task (waiting m.queue)
  pub owner : state.current_tid ≡ m.current_tid
  pub count : state.count ≡ m.count

-- While another task owns the mutex, a turn of `acquire` does not panic on a usable queue, does not
-- give the mutex away, and queues the task behind all that are at least as urgent.
pub exclusion_lem :
    (p : BitmapPool) (m : RecursiveMutexState) (owner tid : ℕ) (task : TaskHandle)
    → IsPool p
    → IsUsable p m.queue
    → task.priority < no_priorities
    → m.current_tid ≡ some owner
    → (owner == tid) ≡ false
    → Waits p m task (acquire_turn p m tid task)
unfolding acquire_turn join
exclusion_lem p m owner tid task v u small owned ne =
    let d = push_handle_refines p m.queue task v u small in
    record {
      pool = d.pool;
      state = record m { queue = d.queue };
      returns = rw (owned, ne, d.returns) refl;
      is_pool = d.is_pool;
      usable = inl d.allocated;
      waits = d.placed;
      owner = refl;
      count = refl;
    }
