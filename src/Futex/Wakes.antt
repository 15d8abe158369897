-- ===== src/Futex/Wakes.antt =====
-- Waking the tasks at an address: src/synch/futex.rs, futex_wake and futex_wake_or_set.
use mathlib.Core.Path.{subst}
use hermit_kernel.Base.{
  ℕ, suc, ◌+◌, ◌-◌, ◌<◌, ◌≤◌, ◌≡◌, min, refl, ap, ◌∙◌, inl, Option, none, some, List, [], ◌∷◌,
  arith,
}
use hermit_kernel.Base.Tests.{◌==◌, if◌then◌else◌, ◌>>=◌}
use hermit_kernel.Base.Lists.{length, take, drop}
use hermit_kernel.Base.Int.{ℤ, pos}
use hermit_kernel.Task.Types.{TaskHandle}
use hermit_kernel.Task.HandleQueue.{TaskHandlePriorityQueue}
use hermit_kernel.Task.HandleQueue.Pool.{BitmapPool}
use hermit_kernel.Task.HandleQueue.Repr.{waiting}
use hermit_kernel.Blocked.Waking.{Absent}
use hermit_kernel.Scheduler.{PerCoreScheduler}
use hermit_kernel.Scheduler.Wakeups.{wake_tasks, wake_tasks-Absent}
use hermit_kernel.Futex.{
  keep_nonempty, Futexes, i32_max, with_word, wake_entry, wake_found, wake_found_or_set, wake,
  wake_or_set,
}
use hermit_kernel.Futex.Lot.{IsLot, waiting_in, waiting_at, entry-IsApart}
use hermit_kernel.Futex.Waits.{Moves}
use hermit_kernel.Futex.Turns.{keep_nonempty_lem}
use hermit_kernel.Futex.Loop.{amount, amount_none, wake_loop_lem}

-- How many tasks a wake takes out, and the number that it returns.
abbrev pub woken_of : Futexes → ℕ → ℕ → ℕ
woken_of st a count = amount count 0 (length (waiting_at st a))

abbrev pub counted : ℕ → ℕ
counted n = min n i32_max

first_amount : (count waiters : ℕ) → 0 < count → (n : ℕ) × (amount count 0 (suc waiters) ≡ suc n)
first_amount count waiters h = (amount count 0 (suc waiters) - 1, ground arith)

-- The results of both wakes that take out the first n of the tasks, in any state of the scheduler.
abbrev pub WakesBoth :
    ℕ
    → Futexes
    → ℕ
    → ℕ
    → ℕ
    → List TaskHandle
    → (PerCoreScheduler → Option (ℤ × (Futexes × PerCoreScheduler)))
    → (PerCoreScheduler → Option (ℤ × (Futexes × PerCoreScheduler)))
    → Type 0
WakesBoth core st a new_value n tasks run run_or_set =
    (st' : Futexes) × ((s : PerCoreScheduler)
      → run s ≡ (wake_tasks core s (take n tasks) >>= λ s'. some (pos (counted n), (st', s'))))
    × ((s : PerCoreScheduler)
        → run_or_set s ≡ (
            wake_tasks core s (take n tasks) >>= λ s'.
            some
              (pos (counted n), (if counted n == 0 then with_word st' a new_value else st', s'))))
    × Moves st a (drop n tasks) st'

-- What follows after tasks were woken.
then_lem :
    {B C : Type 0} (o : Option PerCoreScheduler) (f : PerCoreScheduler → B) (g : B → Option C)
    (h : PerCoreScheduler → C)
    → ((s : PerCoreScheduler) → g (f s) ≡ some (h s))
    → ((o >>= λ s. some (f s)) >>= g) ≡ (o >>= λ s. some (h s))
then_lem none f g h e = refl
then_lem (some s) f g h e = e s

abbrev close_entry :
    Futexes
    → ℕ
    → ℕ × (BitmapPool × (TaskHandlePriorityQueue × PerCoreScheduler))
    → Option (ℕ × (Futexes × PerCoreScheduler))
close_entry st a (n, (p, (q, s))) = keep_nonempty st a p q >>= λ st'. some (n, (st', s))

abbrev number : ℕ × (Futexes × PerCoreScheduler) → Option (ℤ × (Futexes × PerCoreScheduler))
number (n, out) = some (pos n, out)

abbrev number_or_set :
    ℕ → ℕ → ℕ × (Futexes × PerCoreScheduler) → Option (ℤ × (Futexes × PerCoreScheduler))
number_or_set a new_value (n, (st, s)) =
    some (pos n, (if n == 0 then with_word st a new_value else st, s))

module _ (fuel core : ℕ) (st : Futexes) (a count : ℕ) (l : IsLot st) (c : count ≤ i32_max) where
  wake_entry_lem :
      (q : TaskHandlePriorityQueue)
      → st.parking_lot a ≡ some q
      → length (waiting q) < fuel
      → let n = amount count 0 (length (waiting q)) in
        (st' : Futexes) × ((s : PerCoreScheduler)
          → wake_entry fuel core st s a count q
            ≡ (wake_tasks core s (take n (waiting q)) >>= λ s'. some (counted n, (st', s'))))
        × Moves st a (drop n (waiting q)) st'
  unfolding wake_entry
  wake_entry_lem q e f =
      let q-IsAllocated = l.allocated a q e in
      let w = wake_loop_lem fuel core count 0 st.pool q l.is_pool q-IsAllocated (omega arith) c f in
      let (st', k, m) =
        keep_nonempty_lem st a q w.queue w.pool l (entry-IsApart st a q l e) w.is_pool
          (inl w.allocated) w.others in
      let n = amount count 0 (length (waiting q)) in
      let from_zero : 0 + n ≡ n = omega arith in
      (
        st',
        λ s.
            ap (λ o. o >>= close_entry st a) (w.returns s)
            ∙ then_lem (wake_tasks core s (take n (waiting q)))
                (λ s'. (min (0 + n) i32_max, (w.pool, (w.queue, s')))) (close_entry st a)
                (λ s'. (counted (0 + n), (st', s'))) (λ s'. rw k refl)
            ∙ ap (λ z. wake_tasks core s (take n (waiting q)) >>= λ s'. some (counted z, (st', s')))
                from_zero,
        subst (λ tasks. Moves st a tasks st') w.left m,
      )

  nobody : st.parking_lot a ≡ none → Moves st a [] st
  nobody e = record { is_lot = l; waits = ap waiting_in e; others = λ b n. refl; words = refl }

  found_lem :
      (new_value : ℕ) (o : Option TaskHandlePriorityQueue)
      → st.parking_lot a ≡ o
      → length (waiting_in o) < fuel
      → WakesBoth core st a new_value
          (amount count 0 (length (waiting_in o)))
          (waiting_in o)
          (λ s. wake_found fuel core st s a count o)
          (λ s. wake_found_or_set fuel core st s a count new_value o)
  unfolding wake_found wake_found_or_set wake_tasks
  found_lem new_value none e f = rw (amount_none count 0) (st, λ s. refl, λ s. refl, nobody e)
  found_lem new_value (some q) e f =
      let (st', k, m) = wake_entry_lem q e f in
      let n = amount count 0 (length (waiting q)) in
      let woken = λ (s : PerCoreScheduler). wake_tasks core s (take n (waiting q)) in
      (
        st',
        λ s.
            ap (λ o. o >>= number) (k s)
            ∙ then_lem (woken s) (λ s'. (counted n, (st', s'))) number
                (λ s'. (pos (counted n), (st', s'))) (λ s'. refl),
        λ s.
            ap (λ o. o >>= number_or_set a new_value) (k s)
            ∙ then_lem (woken s) (λ s'. (counted n, (st', s'))) (number_or_set a new_value)
                (λ s'. (
                  pos (counted n),
                  (if counted n == 0 then with_word st' a new_value else st', s'),
                ))
                (λ s'. refl),
        m,
      )

  -- A wake with enough fuel takes out the first tasks that wait at the address, as many as it is to
  -- wake, or all for i32::MAX, in the order of their priority and age. It makes them ready one after
  -- the other, and panics exactly if the scheduler cannot wake one of them; else it returns their
  -- number, at most i32::MAX. The others keep their order, and the other addresses their queues. The
  -- variant that sets the word sets it exactly if it woke no task.
  pub wake_lem :
      (new_value : ℕ)
      → length (waiting_at st a) < fuel
      → WakesBoth core st a new_value
          (woken_of st a count)
          (waiting_at st a)
          (λ s. wake fuel core st s a (pos count))
          (λ s. wake_or_set fuel core st s a (pos count) new_value)
  unfolding wake wake_or_set
  wake_lem new_value f = found_lem new_value (st.parking_lot a) refl f

  -- A wake panics if the first task that waits at the address does not block any more, as after its
  -- time-out until it runs.
  pub wake_timed_out :
      (task : TaskHandle) (tasks : List TaskHandle) (s : PerCoreScheduler)
      → length (waiting_at st a) < fuel
      → 0 < count
      → waiting_at st a ≡ task ∷ tasks
      → Absent s.blocked_tasks.tasks task.id s.blocked_tasks.list
      → wake fuel core st s a (pos count) ≡ none
  wake_timed_out task tasks s f positive w absent =
      let (st', e, _, _) = wake_lem 0 f in
      let (n, some_woken) = first_amount count (length tasks) positive in
      let first : take (woken_of st a count) (waiting_at st a) ≡ task ∷ take n tasks =
        ap (λ xs. take (amount count 0 (length xs)) xs) w
        ∙ ap (λ k. take k (task ∷ tasks)) some_woken in
      e s
      ∙ ap
          (λ (o : Option PerCoreScheduler).
            o >>= λ s'. some (pos (counted (woken_of st a count)), (st', s')))
          (ap (wake_tasks core s) first ∙ wake_tasks-Absent core s task (take n tasks) absent)
