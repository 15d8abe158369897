-- ===== src/Futex/Waits.antt =====
-- Waiting at an address: src/synch/futex.rs, futex_wait and futex_wait_and_set.
use hermit_kernel.Base.{
  ◌+◌, ◌^◌, ◌≤◌, arith, ℕ, ◌<◌, ◌≡◌, ◌≢◌, refl, ap, ◌∙◌, inl, inr, Bool, true, false, not, Option,
  none, some, List, [], ◌∷◌,
}
use hermit_kernel.Base.Tests.{◌==◌, ltb, if◌then◌else◌, Bool-cases, ◌>>=◌}
use hermit_kernel.Task.Types.{TaskHandle}
use hermit_kernel.Task.Levels.{no_priorities, is_empty as no_entry}
use hermit_kernel.Task.Levels.Priority.{insert}
use hermit_kernel.Task.HandleQueue.{TaskHandlePriorityQueue}
use hermit_kernel.Task.HandleQueue.Repr.{waiting, priority_of}
use hermit_kernel.Task.HandleQueue.Order.{push_handle_refines}
use hermit_kernel.Task.HandleQueue.Empty.{waiting-new}
use hermit_kernel.Futex.{
  Futexes, Start, with_entry, with_word, or_default, wakeup_time, park, wait, wait_and_set,
}
use hermit_kernel.Futex.Lot.{
  IsLot, HasRoom, waiting_in, waiting_at, own_entry, other_entry, changed-IsLot, joined,
}

insert-nonempty :
    (task : TaskHandle) (xs : List TaskHandle) → no_entry (insert priority_of task xs) ≡ false
unfolding insert
insert-nonempty task [] = refl
insert-nonempty task (x ∷ xs) = elim (Bool-cases (ltb (priority_of x) (priority_of task))) [
  | inl e ↦ rw e refl
  | inr e ↦ rw e refl
]

waiting-or_default : (o : Option TaskHandlePriorityQueue) → waiting (or_default o) ≡ waiting_in o
waiting-or_default none = waiting-new
waiting-or_default (some q) = refl

-- The state after an address got other tasks.
pub record Moves (st : Futexes) (a : ℕ) (tasks : List TaskHandle) (out : Futexes) : Type 0 where
  pub is_lot : IsLot out
  pub waits : waiting_at out a ≡ tasks
  pub others : (b : ℕ) → b ≢ a → out.parking_lot b ≡ st.parking_lot b
  pub words : out.words ≡ st.words

park_lem :
    (st : Futexes) (a : ℕ) (task : TaskHandle)
    → IsLot st
    → HasRoom st.pool (st.parking_lot a)
    → task.priority < no_priorities
    → (st' : Futexes) × (park st a task ≡ some st')
      × Moves st a (insert priority_of task (waiting_at st a)) st'
unfolding park
park_lem st a task l room small =
    let q = or_default (st.parking_lot a) in
    let (u, s) = joined st a (st.parking_lot a) l refl room in
    let d = push_handle_refines st.pool q task l.is_pool u small in
    let placed = d.placed ∙ ap (insert priority_of task) (waiting-or_default (st.parking_lot a)) in
    let own = own_entry st a d.pool (some d.queue) in
    (
      with_entry st a d.pool (some d.queue),
      rw (d.returns) refl,
      record {
        is_lot =
            changed-IsLot st a q d.pool d.queue.prio_bitmap_id l s d.is_pool d.others (some d.queue)
              (d.allocated, refl, ap no_entry placed ∙ insert-nonempty task _);
        waits = ap waiting_in own ∙ placed;
        others = λ b n. other_entry st a b d.pool (some d.queue) n;
        words = refl;
      },
    )

with_word-IsLot : (st : Futexes) (a v : ℕ) → IsLot st → IsLot (with_word st a v)
with_word-IsLot st a v l = record {
  is_pool = l.is_pool;
  allocated = l.allocated;
  nonempty = l.nonempty;
  apart = l.apart;
}

-- The time until which a wait blocks: that of the timeout, which counts from `now` if it is relative,
-- or for good without a timeout, or with one that ends behind the last time of 64 bits.
abbrev pub IsUntil : Option ℕ → Bool → ℕ → Option ℕ → Type 0
IsUntil none relative now until = until ≡ none
IsUntil (some t) false now until = until ≡ some t
IsUntil (some t) true now until =
    (now + t < 2 ^ 64 → until ≡ some (now + t)) × (2 ^ 64 ≤ now + t → until ≡ none)

wakeup_time-IsUntil :
    (timeout : Option ℕ) (relative : Bool) (now : ℕ)
    → IsUntil timeout relative now (wakeup_time relative timeout now)
wakeup_time-IsUntil none relative now = refl
wakeup_time-IsUntil (some t) false now = refl
wakeup_time-IsUntil (some t) true now = (λ h. ground arith, λ h. ground arith)

-- How a wait starts, from the state in which the word is compared.
abbrev pub Starts :
    Futexes → ℕ → Option ℕ → Bool → ℕ → TaskHandle → Option (Start × Futexes) → Bool → Type 0
Starts st a timeout relative now task out false = out ≡ some (Start.refused, st)
Starts st a timeout relative now task out true =
    (until : Option ℕ) × (st' : Futexes) × (out ≡ some (Start.blocks until, st'))
    × IsUntil timeout relative now until
    × Moves st a (insert priority_of task (waiting_at st a)) st'

-- A wait at an address does not panic if a task waits there already or a bitmap for a new queue is
-- free. If the word there is not the expected one, it is refused; else the task blocks until the
-- time of its timeout, which counts from now if it is relative, and for good if there is none or the
-- sum has more than 64 bits. It waits at the address behind all that are at least as urgent, while
-- the other addresses keep their queues. The variant that sets the word sets it in both cases.
pub wait_lem :
    (st : Futexes) (a expected : ℕ) (timeout : Option ℕ) (relative : Bool) (new_value now : ℕ)
    (task : TaskHandle)
    → IsLot st
    → HasRoom st.pool (st.parking_lot a)
    → task.priority < no_priorities
    → Starts st a timeout relative now task
        (wait st a expected timeout relative now task)
        (st.words a == expected)
      × Starts
          (with_word st a new_value)
          a
          timeout
          relative
          now
          task
          (wait_and_set st a expected timeout relative new_value now task)
          (st.words a == expected)
unfolding wait wait_and_set
wait_lem st a expected timeout relative new_value now task l room small =
    (first (st.words a == expected), second (st.words a == expected))
  where
    until : Option ℕ
    until = wakeup_time relative timeout now

    first :
        (b : Bool)
        → Starts st a timeout relative now task
            (if not b
              then some (Start.refused, st)
              else do st' ← park st a task; some (Start.blocks until, st'))
            b
    first false = refl
    first true =
        let (st', e, m) = park_lem st a task l room small in
        (until, st', rw e refl, wakeup_time-IsUntil timeout relative now, m)

    set : Futexes
    set = with_word st a new_value

    second :
        (b : Bool)
        → Starts set a timeout relative now task
            (if not b
              then some (Start.refused, set)
              else do st' ← park set a task; some (Start.blocks until, st'))
            b
    second false = refl
    second true =
        let (st', e, m) = park_lem set a task (with_word-IsLot st a new_value l) room small in
        (until, st', rw e refl, wakeup_time-IsUntil timeout relative now, m)
