-- ===== src/Futex/Turns.antt =====
-- The turns of the loop of a wait: src/synch/futex.rs, futex_wait and futex_wait_and_set.
use mathlib.Core.Path.{subst}
use hermit_kernel.Base.{
  ℕ, ◌<◌, ◌≡◌, refl, sym, ap, ◌∙◌, inl, Bool, true, false, Option, none, some, List, [], ◌∷◌,
}
use hermit_kernel.Base.Tests.{if◌then◌else◌}
use hermit_kernel.Task.Types.{TaskHandle}
use hermit_kernel.Task.Levels.{no_priorities, is_empty as no_entry}
use hermit_kernel.Task.HandleQueue.{TaskHandlePriorityQueue, any_id}
use hermit_kernel.Task.HandleQueue.Pool.{BitmapPool}
use hermit_kernel.Task.HandleQueue.Repr.{
  IsPool, IsAllocated, IsUsable, KeepsOthers, KeepsOthers-trans, levels, waiting,
}
use hermit_kernel.Task.HandleQueue.Remove.{OnlyAt, without, remove_handle_refines, contains_lem}
use hermit_kernel.Task.HandleQueue.Empty.{is_empty_refines}
use hermit_kernel.Futex.{Futexes, Turn, with_entry, has_come, keep_nonempty, leave, look, wait_turn}
use hermit_kernel.Futex.Lot.{
  IsLot, IsApart, waiting_in, waiting_at, own_entry, other_entry, changed-IsLot, entry-IsApart,
}
use hermit_kernel.Futex.Waits.{Moves}

-- The task waits at no other priority than its own.
abbrev pub OnlyThere : Option TaskHandlePriorityQueue → TaskHandle → Type 0
OnlyThere none task = Unit
OnlyThere (some q) task = OnlyAt task.id task.priority (levels q)

-- How a turn has to end.
abbrev pub ending : Bool → Bool → Turn
ending queued false = if queued then Turn.blocks_again else Turn.was_woken
ending queued true = if queued then Turn.timed_out else Turn.was_woken

abbrev pub stays : Bool → ℕ → List TaskHandle → List TaskHandle
stays false id tasks = tasks
stays true id tasks = without id tasks

module _ (st : Futexes) (a : ℕ) (q₀ q : TaskHandlePriorityQueue) (p : BitmapPool) (l : IsLot st)
    (s : IsApart st a q₀) (v : IsPool p) (u : IsUsable p q)
    (k : KeepsOthers st.pool q₀ p q.prio_bitmap_id) where
  entry_after :
      (p' : BitmapPool) (q' : TaskHandlePriorityQueue) (b : Bool)
      → IsPool p'
      → IsAllocated p' q'
      → KeepsOthers p q p' q'.prio_bitmap_id
      → waiting q' ≡ waiting q
      → no_entry (waiting q) ≡ b
      → Moves st a (waiting q) (with_entry st a p' (if b then none else some q'))
  entry_after p' q' true v' a' k' same e =
      let k₂ = KeepsOthers-trans st.pool q₀ p q p' q'.prio_bitmap_id k k' in
      record {
        is_lot = changed-IsLot st a q₀ p' q'.prio_bitmap_id l s v' k₂ none tt;
        waits = ap waiting_in (own_entry st a p' none) ∙ sym (nothing (waiting q) e);
        others = λ b n. other_entry st a b p' none n;
        words = refl;
      }
    where
      nothing : (xs : List TaskHandle) → no_entry xs ≡ true → xs ≡ []
      nothing [] h = refl
      nothing (x ∷ xs) h = absurd cc
  entry_after p' q' false v' a' k' same e =
      let k₂ = KeepsOthers-trans st.pool q₀ p q p' q'.prio_bitmap_id k k' in
      record {
        is_lot =
            changed-IsLot st a q₀ p' q'.prio_bitmap_id l s v' k₂ (some q')
              (a', refl, ap no_entry same ∙ e);
        waits = ap waiting_in (own_entry st a p' (some q')) ∙ same;
        others = λ b n. other_entry st a b p' (some q') n;
        words = refl;
      }

  -- An entry that has changed goes exactly if no task waits there any more.
  pub keep_nonempty_lem :
      (st' : Futexes) × (keep_nonempty st a p q ≡ some st') × Moves st a (waiting q) st'
  unfolding keep_nonempty
  keep_nonempty_lem =
      let c = is_empty_refines p q v u in
      (
        with_entry st a c.pool (if no_entry (waiting q) then none else some c.queue),
        rw (c.returns) refl,
        entry_after c.pool c.queue (no_entry (waiting q)) c.is_pool c.allocated c.others c.same
            refl,
      )

-- The result of a turn for which the tasks wait at the address.
abbrev pub TurnsFrom :
    Futexes → ℕ → TaskHandle → Option (Turn × Futexes) → Bool → List TaskHandle → Type 0
TurnsFrom st a task out come tasks =
    (st' : Futexes) × (out ≡ some (ending (any_id task.id tasks) come, st'))
    × Moves st a (stays come task.id tasks) st'

module _ (st : Futexes) (a : ℕ) (task : TaskHandle) (l : IsLot st)
    (small : task.priority < no_priorities) where
  stay : (tasks : List TaskHandle) → waiting_at st a ≡ tasks → Moves st a tasks st
  stay tasks e = record { is_lot = l; waits = e; others = λ b n. refl; words = refl }

  leave_lem :
      (o : Option TaskHandlePriorityQueue)
      → st.parking_lot a ≡ o
      → OnlyThere o task
      → TurnsFrom st a task (leave st a task o) true (waiting_in o)
  unfolding leave any_id without
  leave_lem none e once = (st, refl, stay [] (ap waiting_in e))
  leave_lem (some q) e once =
      let q-IsAllocated = l.allocated a q e in
      let d = remove_handle_refines st.pool q task l.is_pool small once (inl q-IsAllocated) in
      let (st', f, m) =
        keep_nonempty_lem st a q d.queue d.pool l (entry-IsApart st a q l e) d.is_pool d.usable
          d.others in
      (
        st',
        rw (d.returns, f) (left_as (any_id task.id (waiting q)) st'),
        subst (λ tasks. Moves st a tasks st') d.left m,
      )
    where
      left_as :
          (b : Bool) (st' : Futexes)
          → ◌≡◌ {A = Option (Turn × Futexes)}
              (some (if b then Turn.timed_out else Turn.was_woken, st'))
              (some (ending b true, st'))
      left_as b st' = refl

  look_lem :
      (o : Option TaskHandlePriorityQueue)
      → st.parking_lot a ≡ o
      → OnlyThere o task
      → TurnsFrom st a task (look st task o) false (waiting_in o)
  unfolding look any_id
  look_lem none e once = (st, refl, stay [] (ap waiting_in e))
  look_lem (some q) e once =
      let size = (l.allocated a q e).size in
      (st, rw (contains_lem q task small once size) refl, stay (waiting q) (ap waiting_in e))

  -- A turn of the loop of a wait does not panic, for a task that waits at no other priority than
  -- its own. A task that no longer waits at the address was woken, also if its timeout has come;
  -- one that waits leaves the queue with ETIMEDOUT if it has come, and else blocks again. The
  -- tasks that wait keep their order, and the other addresses their queues.
  pub wait_turn_lem :
      (until : Option ℕ) (now : ℕ)
      → OnlyThere (st.parking_lot a) task
      → TurnsFrom st a task (wait_turn st a until now task) (has_come until now) (waiting_at st a)
  unfolding wait_turn
  wait_turn_lem until now once = go (has_come until now)
    where
      go :
          (come : Bool)
          → TurnsFrom st a task
              (if come then leave st a task (st.parking_lot a) else look st task (st.parking_lot a))
              come
              (waiting_at st a)
      go true = leave_lem (st.parking_lot a) refl once
      go false = look_lem (st.parking_lot a) refl once
