-- ===== src/Futex/Progress.antt =====
-- Waits and wakes together: src/synch/futex.rs.
use hermit_kernel.Task.Levels.Priority.{insert}
use hermit_kernel.Base.{
  ℕ, suc, ◌<◌, ◌≤◌, ◌≡◌, refl, ap, ◌∙◌, inl, inr, Bool, true, false, Option, none, some, List, [],
  ◌∷◌, arith,
}
use hermit_kernel.Base.Tests.{◌==◌, ltb, Bool-cases, ◌>>=◌}
use hermit_kernel.Base.Lists.{length, take, drop}
use hermit_kernel.Base.Int.{pos}
use hermit_kernel.Task.Types.{TaskHandle}
use hermit_kernel.Task.Levels.{no_priorities}
use hermit_kernel.Task.HandleQueue.{TaskHandlePriorityQueue, any_id}
use hermit_kernel.Task.HandleQueue.Repr.{priority_of}
use hermit_kernel.Task.HandleQueue.Absent.{absent-OnlyAt}
use hermit_kernel.Scheduler.{PerCoreScheduler}
use hermit_kernel.Scheduler.Wakeups.{wake_tasks, AllWait, AreWoken, wake_tasks_lem}
use hermit_kernel.Blocked.Wakeup.{IsValid}
use hermit_kernel.Task.ReadyQueue.Order.{IsValid as IsValidReady}
use hermit_kernel.Futex.{Futexes, Start, Turn, wait, i32_max, wake, wait_turn, has_come}
use hermit_kernel.Futex.Wakes.{woken_of, counted, wake_lem}
use hermit_kernel.Futex.Lot.{IsLot, HasRoom, waiting_in, waiting_at}
use hermit_kernel.Futex.Waits.{wait_lem}
use hermit_kernel.Futex.Turns.{OnlyThere, ending, wait_turn_lem}

pub absent-OnlyThere :
    (st : Futexes) (a : ℕ) (task : TaskHandle) (o : Option TaskHandlePriorityQueue)
    → IsLot st
    → st.parking_lot a ≡ o
    → any_id task.id (waiting_in o) ≡ false
    → OnlyThere o task
absent-OnlyThere st a task none l e h = tt
absent-OnlyThere st a task (some q) l e h =
    absent-OnlyAt q task.id task.priority (l.allocated a q e).size h

-- A task that does not wait at an address any more was woken.
absent_turn :
    (st : Futexes) (a : ℕ) (task : TaskHandle) (until : Option ℕ) (now : ℕ)
    → IsLot st
    → task.priority < no_priorities
    → any_id task.id (waiting_at st a) ≡ false
    → (st' : Futexes) × (wait_turn st a until now task ≡ some (Turn.was_woken, st')) × IsLot st'
absent_turn st a task until now l small h =
    let once = absent-OnlyThere st a task (st.parking_lot a) l refl h in
    let (st', e, m) = wait_turn_lem st a task l small until now once in
    (st', e ∙ rw h (same_ending (has_come until now) st'), m.is_lot)
  where
    same_ending :
        (come : Bool) (st' : Futexes)
        → ◌≡◌ {A = Option (Turn × Futexes)}
            (some (ending false come, st'))
            (some (Turn.was_woken, st'))
    same_ending true st' = refl
    same_ending false st' = refl

-- A task that a wake takes out of the queue of its address returns from its wait with 0 at its
-- next turn, also if its timeout has come by then.
pub woken_returns :
    (fuel core : ℕ) (st : Futexes) (s s' : PerCoreScheduler) (a count : ℕ) (task : TaskHandle)
    (until : Option ℕ) (now : ℕ)
    → IsLot st
    → count ≤ i32_max
    → length (waiting_at st a) < fuel
    → wake_tasks core s (take (woken_of st a count) (waiting_at st a)) ≡ some s'
    → task.priority < no_priorities
    → any_id task.id (drop (woken_of st a count) (waiting_at st a)) ≡ false
    → (st₁ : Futexes) × (st₂ : Futexes) × (wake fuel core st s a (pos count)
        ≡ some (pos (counted (woken_of st a count)), (st₁, s')))
      × (wait_turn st₁ a until now task ≡ some (Turn.was_woken, st₂))
      × IsLot st₂
woken_returns fuel core st s s' a count task until now l c f awake small h =
    let (st₁, e, _, m) = wake_lem fuel core st a count l c 0 f in
    let (st₂, t, l₂) =
      absent_turn st₁ a task until now m.is_lot small (ap (any_id task.id) m.waits ∙ h) in
    (
      st₁,
      st₂,
      e s
          ∙ ap
              (λ (o : Option PerCoreScheduler).
                o >>= λ z. some (pos (counted (woken_of st a count)), (st₁, z)))
              awake,
      t,
      l₂,
    )

length-insert :
    (task : TaskHandle) (xs : List TaskHandle)
    → length (insert priority_of task xs) ≡ suc (length xs)
unfolding insert
length-insert task [] = refl
length-insert task (x ∷ xs) = elim (Bool-cases (ltb (priority_of x) (priority_of task))) [
  | inl e ↦ rw e refl
  | inr e ↦ rw e (ap suc (length-insert task xs))
]

take_all : (xs : List TaskHandle) → take (length xs) xs ≡ xs
take_all [] = refl
take_all (x ∷ xs) = ap (◌∷◌ x) (take_all xs)

drop_all : (xs : List TaskHandle) → drop (length xs) xs ≡ []
drop_all [] = refl
drop_all (x ∷ xs) = drop_all xs

-- No wake-up is lost: a task that found the expected word and blocks is woken by the next wake of
-- all tasks, if it and those that waited before it are different tasks that still block on the core.
-- One after the other, in the order of their priority and age, they leave the blocked tasks, are made
-- ready and join the ready queue, or the wake of one that is being evicted is noted. The wake returns
-- their number, and the wait of the task then returns 0 at its next turn, whatever the time is.
pub no_wake_up_lost :
    (fuel core : ℕ) (st : Futexes) (s : PerCoreScheduler) (a expected : ℕ) (timeout : Option ℕ)
    (relative : Bool) (now later : ℕ) (task : TaskHandle)
    → IsLot st
    → HasRoom st.pool (st.parking_lot a)
    → task.priority < no_priorities
    → (st.words a == expected) ≡ true
    → suc (length (waiting_at st a)) < fuel
    → IsValid s.blocked_tasks
    → IsValidReady s.blocked_tasks.tasks s.ready_queue
    → AllWait core s.blocked_tasks.tasks s.blocked_tasks.list
        (insert priority_of task (waiting_at st a))
    → let tasks = insert priority_of task (waiting_at st a) in
      (until : Option ℕ) × (st₁ : Futexes) × (st₂ : Futexes) × (st₃ : Futexes)
      × (s' : PerCoreScheduler) × (wait st a expected timeout relative now task
          ≡ some (Start.blocks until, st₁))
      × (wake fuel core st₁ s a (pos i32_max) ≡ some (pos (counted (length tasks)), (st₂, s')))
      × (wait_turn st₂ a until later task ≡ some (Turn.was_woken, st₃))
      × AreWoken s tasks s'
unfolding any_id
no_wake_up_lost fuel core st s a expected timeout relative now later task l room small w f v r
      blocked =
    let (s', awake, ready) =
      wake_tasks_lem core s (insert priority_of task (waiting_at st a)) v r blocked in
    let (until, st₁, e, _, m) =
      rw w at (wait_lem st a expected timeout relative 0 now task l room small).0 in
    let long = ap length m.waits ∙ length-insert task (waiting_at st a) in
    let (st₂, e₂, _, m₂) =
      wake_lem fuel core st₁ a i32_max m.is_lot (omega arith) 0 (omega (arith, long, f)) in
    let none_left = m₂.waits ∙ drop_all (waiting_at st₁ a) in
    let (st₃, e₃, _) =
      absent_turn st₂ a task until later m₂.is_lot small (ap (any_id task.id) none_left) in
    let all : take (length (waiting_at st₁ a)) (waiting_at st₁ a) ≡ _ =
      take_all (waiting_at st₁ a) ∙ m.waits in
    (
      until,
      st₁,
      st₂,
      st₃,
      s',
      e,
      e₂ s
          ∙ ap
              (λ (o : Option PerCoreScheduler).
                o >>= λ z. some (pos (counted (length (waiting_at st₁ a))), (st₂, z)))
              (ap (wake_tasks core s) all ∙ awake)
          ∙ ap (λ xs. some (pos (counted (length xs)), (st₂, s'))) m.waits,
      e₃,
      ready,
    )
