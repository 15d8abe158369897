-- ===== src/Task/HandleQueue/Take.antt =====
-- Taking handles out of the handle queue: `pop`, `is_empty` and the test `contains`.
use mathlib.Core.List.{map}
use hermit_kernel.Base.{
  ℕ, ◌<◌, ◌≡◌, sym, ap, ◌∙◌, ◌⊎◌, inl, inr, true, false, Option, none, some, List, [], ◌∷◌, arith,
}
use hermit_kernel.Base.Tests.{ltb, ltb→lt, if◌then◌else◌, Bool-cases, ◌>>=◌}
use hermit_kernel.Base.Lists.{get_or, set, set-get_or, get_elem?-eq-get_or, get_or_out}
use hermit_kernel.Base.Bits.{clear_bit, bit, bit-zero}
use hermit_kernel.Task.Types.{TaskHandle}
use hermit_kernel.Task.Levels.{
  no_priorities, msb-IsHighest, IsHighest, level, filled, filled_le, is_empty as no_entry,
  Records-IsWord, Records-clear_bit, order, order-take, order-none, empty_of_filled, cons_of_filled,
}
use hermit_kernel.Task.Levels.Priority.{AtLevel}
use hermit_kernel.Task.HandleQueue.{
  TaskHandlePriorityQueue, ensure_bitmap, pop, pop_from_queue, clear_if_empty,
}
use hermit_kernel.Task.HandleQueue.Pool.{BitmapPool}
use hermit_kernel.Task.HandleQueue.Repr.{
  IsPool, IsAllocated, IsUsable, Settles, settle, levels, entries, waiting, priority_of, level-map,
  map-set, length-levels, bitmap_allocated, bitmap_mut_allocated, IsPool-set, KeepsOthers,
  KeepsOthers-set, KeepsOthers-trans,
}
use hermit_kernel.Task.HandleQueue.Order.{
  rewritten_pool, with_level, level_in, rewritten, bitmap_ensures,
}

-- Writing a cut level and its digit.
pub clear_step :
    (p : BitmapPool) (q : TaskHandlePriorityQueue) (i : ℕ) (rest : List TaskHandle)
    → IsPool p
    → 0 < q.prio_bitmap_id
    → q.prio_bitmap_id < p.next
    → let bits = get_or p.slots q.prio_bitmap_id 0 in
      clear_if_empty i rest p q
      ≡ some (rewritten_pool p q (if no_entry rest then clear_bit bits i else bits), q)
unfolding clear_if_empty
clear_step p q i [] v pos l = bitmap_mut_allocated p q v pos l (λ bits. clear_bit bits i)
clear_step p q i (x ∷ xs) v pos l =
    ap (λ s. some (record p { slots = s }, q)) (sym (set-get_or p.slots q.prio_bitmap_id 0))

pub some_of_entries :
    (o : Option (List TaskHandle)) (h : TaskHandle) (xs : List TaskHandle)
    → entries o ≡ h ∷ xs
    → o ≡ some (h ∷ xs)
some_of_entries none h xs e = cc
some_of_entries (some l) h xs e = ap some e

-- What `pop` does to a usable queue in which something waits.
pub record Pops (p : BitmapPool) (q : TaskHandlePriorityQueue)
    (out : Option (Option TaskHandle × BitmapPool × TaskHandlePriorityQueue)) : Type 0 where
  pub task : TaskHandle
  pub pool : BitmapPool
  pub queue : TaskHandlePriorityQueue
  pub returns : out ≡ some (some task, pool, queue)
  pub is_pool : IsPool pool
  pub allocated : IsAllocated pool queue
  pub others : KeepsOthers p q pool queue.prio_bitmap_id
  pub taken : waiting q ≡ task ∷ waiting queue

pop_level :
    (p : BitmapPool) (q : TaskHandlePriorityQueue) (i : ℕ) (h : TaskHandle) (xs : List TaskHandle)
    → IsPool p
    → IsAllocated p q
    → i < no_priorities
    → level (levels q) i ≡ h ∷ xs
    → ((j : ℕ) → i < j → level (levels q) j ≡ [])
    → Pops p q (pop_from_queue p q i)
unfolding pop_from_queue
pop_level p q i h xs v a small e above =
    let old = get_or p.slots q.prio_bitmap_id 0 in
    let bits = if no_entry xs then clear_bit old i else old in
    let s : AtLevel priority_of i (h ∷ xs) = rw e at (a.sorted i) in
    let full : filled (level (levels q) i) ≡ 1 = ap filled e in
    let b = level_in p q i bits xs v a small in
    record {
      task = h;
      pool = rewritten_pool p q bits;
      queue = with_level q i xs;
      returns =
          rw
            (
              get_elem?-eq-get_or q.queues i none (omega (arith, a.size)),
              some_of_entries (get_or q.queues i none) h xs (sym (level-map q.queues i) ∙ e),
            )
            (rw (clear_step p (with_level q i xs) i xs v a.id_pos a.id_next));
      is_pool = IsPool-set p q.prio_bitmap_id bits v a.id_next;
      allocated =
          rewritten p q i bits xs v a small
            (Records-clear_bit old (levels q) i xs (length-levels q.queues ∙ a.size) small
              (omega (arith, filled_le xs)) a.recorded)
            s.1;
      others = KeepsOthers-set p q bits;
      taken =
          rw (map-set q.queues i xs) (order-take no_priorities i (levels q) h xs small b e above);
    }

-- What `pop` does to a usable queue in which nothing waits.
pub record PopsNothing (p : BitmapPool) (q : TaskHandlePriorityQueue)
    (out : Option (Option TaskHandle × BitmapPool × TaskHandlePriorityQueue)) : Type 0 where
  pub pool : BitmapPool
  pub queue : TaskHandlePriorityQueue
  pub returns : out ≡ some (none, pool, queue)
  pub is_pool : IsPool pool
  pub allocated : IsAllocated pool queue
  pub others : KeepsOthers p q pool queue.prio_bitmap_id
  pub nothing : waiting q ≡ []
  pub still_nothing : waiting queue ≡ []

pub highest_level :
    (p : BitmapPool) (q : TaskHandlePriorityQueue) (i : ℕ)
    → IsPool p
    → IsAllocated p q
    → IsHighest (get_or p.slots q.prio_bitmap_id 0) i
    → Pops p q (pop_from_queue p q i)
highest_level p q i v a (set, above) =
    let (h, xs, e) = cons_of_filled (level (levels q) i) (sym (a.recorded i) ∙ set) in
    pop_level p q i h xs v a (in_array (Bool-cases (ltb i no_priorities))) e
      (λ j l. empty_of_filled (level (levels q) j) (sym (a.recorded j) ∙ above j l))
  where
    in_array : (ltb i no_priorities ≡ true) ⊎ (ltb i no_priorities ≡ false) → i < no_priorities
    in_array (inl e) = ltb→lt i no_priorities e
    in_array (inr e) = absurd (
        omega (
          arith,
          a.recorded i,
          ap filled (get_or_out (levels q) i [] (ground (arith, length-levels q.queues, a.size))),
        ))

pop_allocated :
    (p : BitmapPool) (q : TaskHandlePriorityQueue)
    → IsPool p
    → IsAllocated p q
    → PopsNothing p q (pop p q) ⊎ Pops p q (pop p q)
unfolding pop
pop_allocated p q v a =
    let bits = get_or p.slots q.prio_bitmap_id 0 in
    let word = Records-IsWord bits (levels q) (length-levels q.queues ∙ a.size) a.recorded in
    let read = bitmap_allocated p q v a.id_pos a.id_next in
    elim (msb-IsHighest bits word) [
      | inl (z, e) ↦
          let empty = order-none no_priorities (levels q) (λ j.
            empty_of_filled (level (levels q) j)
              (sym (a.recorded j) ∙ ap (bit j) z ∙ bit-zero j)) in
          inl (record {
            pool = p;
            queue = q;
            returns = rw read (rw (e, ◌>>=◌));
            is_pool = v;
            allocated = a;
            others = λ other b n. (b, n);
            nothing = empty;
            still_nothing = empty;
          })
      | inr (i, e, h) ↦
          let step : pop p q ≡ pop_from_queue p q i = rw read (rw (e, ◌>>=◌)) in
          inr (rw step (highest_level p q i v a h))
    ]

pop_ensures :
    (p p' : BitmapPool) (q q' : TaskHandlePriorityQueue)
    → ensure_bitmap p q ≡ ensure_bitmap p' q'
    → pop p q ≡ pop p' q'
unfolding pop
pop_ensures p p' q q' e = rw (bitmap_ensures p p' q q' e)

pub same_waiting :
    (p : BitmapPool) (q : TaskHandlePriorityQueue) (s : Settles p q) → waiting q ≡ waiting s.queue
same_waiting p q s = ap (λ qs. order no_priorities (map entries qs)) (sym s.same)

-- On a usable queue, fresh or not, `pop` does not panic. It takes the first handle that waits and
-- leaves the others in their order; exactly if no handle waits it returns none. The pool, the
-- queue and every other queue with a bitmap stay valid.
pub pop_handle_refines :
    (p : BitmapPool) (q : TaskHandlePriorityQueue)
    → IsPool p
    → IsUsable p q
    → PopsNothing p q (pop p q) ⊎ Pops p q (pop p q)
pop_handle_refines p q v u =
    let s = settle p q v u in
    let same = same_waiting p q s in
    let step = pop_ensures p s.pool q s.queue s.ensures in
    elim (pop_allocated s.pool s.queue s.is_pool s.allocated) [
      | inl d ↦ inl (record {
        pool = d.pool;
        queue = d.queue;
        returns = step ∙ d.returns;
        is_pool = d.is_pool;
        allocated = d.allocated;
        others =
            KeepsOthers-trans p q s.pool s.queue d.pool d.queue.prio_bitmap_id s.others d.others;
        nothing = same ∙ d.nothing;
        still_nothing = d.still_nothing;
      })
      | inr d ↦ inr (record {
        task = d.task;
        pool = d.pool;
        queue = d.queue;
        returns = step ∙ d.returns;
        is_pool = d.is_pool;
        allocated = d.allocated;
        others =
            KeepsOthers-trans p q s.pool s.queue d.pool d.queue.prio_bitmap_id s.others d.others;
        taken = same ∙ d.taken;
      })
    ]
