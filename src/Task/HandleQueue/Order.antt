-- ===== src/Task/HandleQueue/Order.antt =====
-- The handle queue serves by priority, and first come first served within one priority.
use mathlib.Core.List.{map}
use hermit_kernel.Base.{
  ℕ, ◌<◌, ◌≡◌, refl, sym, ap, ◌∙◌, Option, none, some, List, [], ◌∷◌, ◌++◌, arith,
}
use hermit_kernel.Base.Lists.{length, get_or, set, length-set, get_or-set_self, get_elem?-eq-get_or}
use hermit_kernel.Base.Bits.{set_bit}
use hermit_kernel.Task.Types.{TaskHandle}
use hermit_kernel.Task.Levels.{no_priorities, level, Records, Records-set_bit, order}
use hermit_kernel.Task.Levels.Priority.{insert, AtLevel, AtLevel-append, IsSorted-set, order-append}
use hermit_kernel.Task.HandleQueue.{
  TaskHandlePriorityQueue, ensure_bitmap, bitmap, bitmap_mut, push, with_back,
}
use hermit_kernel.Task.HandleQueue.Pool.{BitmapPool}
use hermit_kernel.Task.HandleQueue.Repr.{
  IsPool, IsAllocated, IsUsable, settle, levels, entries, waiting, priority_of, level-map, map-set,
  length-levels, bitmap_mut_allocated, IsPool-set, KeepsOthers, KeepsOthers-set, KeepsOthers-trans,
}

pub bitmap_ensures :
    (p p' : BitmapPool) (q q' : TaskHandlePriorityQueue)
    → ensure_bitmap p q ≡ ensure_bitmap p' q'
    → bitmap p q ≡ bitmap p' q'
unfolding bitmap
bitmap_ensures p p' q q' e = rw e

bitmap_mut_ensures :
    (f : ℕ → ℕ) (p p' : BitmapPool) (q q' : TaskHandlePriorityQueue)
    → ensure_bitmap p q ≡ ensure_bitmap p' q'
    → bitmap_mut f p q ≡ bitmap_mut f p' q'
unfolding bitmap_mut
bitmap_mut_ensures f p p' q q' e = rw e

-- A queue whose level `i` becomes `xs` and whose bitmap becomes `bits`.
abbrev pub rewritten_pool : BitmapPool → TaskHandlePriorityQueue → ℕ → BitmapPool
rewritten_pool p q bits = record p { slots = set p.slots q.prio_bitmap_id bits }

abbrev pub with_level : TaskHandlePriorityQueue → ℕ → List TaskHandle → TaskHandlePriorityQueue
with_level q i xs = record q { queues = set q.queues i (some xs) }

module _ (p : BitmapPool) (q : TaskHandlePriorityQueue) (i bits : ℕ) (xs : List TaskHandle)
    (v : IsPool p) (a : IsAllocated p q) (small : i < no_priorities) where
  pub level_in : i < length (levels q)
  level_in = omega (arith, length-levels q.queues, a.size)

  pub rewritten :
      Records bits (set (levels q) i xs)
      → AtLevel priority_of i xs
      → IsAllocated (rewritten_pool p q bits) (with_level q i xs)
  rewritten r s = record {
    size = length-set q.queues i (some xs) ∙ a.size;
    id_pos = a.id_pos;
    id_next = a.id_next;
    recorded =
        rw
          (
            map-set q.queues i xs,
            get_or-set_self p.slots q.prio_bitmap_id bits 0
                (omega (arith, v.size, v.bound, a.id_next)),
          )
          r;
    sorted =
        rw (map-set q.queues i xs) (IsSorted-set priority_of (levels q) i xs level_in s a.sorted);
  }

entries-with_back :
    (o : Option (List TaskHandle)) (t : TaskHandle) → with_back o t ≡ entries o ++ t ∷ []
entries-with_back none t = refl
entries-with_back (some l) t = refl

-- What `push` does to a usable queue.
pub record Pushes (p : BitmapPool) (q : TaskHandlePriorityQueue) (task : TaskHandle)
    (out : Option (BitmapPool × TaskHandlePriorityQueue)) : Type 0 where
  pub pool : BitmapPool
  pub queue : TaskHandlePriorityQueue
  pub returns : out ≡ some (pool, queue)
  pub is_pool : IsPool pool
  pub allocated : IsAllocated pool queue
  pub others : KeepsOthers p q pool queue.prio_bitmap_id
  pub placed : waiting queue ≡ insert priority_of task (waiting q)

push_allocated :
    (p : BitmapPool) (q : TaskHandlePriorityQueue) (task : TaskHandle)
    → IsPool p
    → IsAllocated p q
    → task.priority < no_priorities
    → Pushes p q task (push p q task)
unfolding push
push_allocated p q task v a small =
    let i = task.priority in
    let id = q.prio_bitmap_id in
    let xs = level (levels q) i ++ task ∷ [] in
    let bits = set_bit (get_or p.slots id 0) i in
    let b : i < length (levels q) = level_in p q i bits xs v a small in
    let e : with_back (get_or q.queues i none) task ≡ xs =
      entries-with_back (get_or q.queues i none) task
      ∙ ap (λ l. l ++ task ∷ []) (sym (level-map q.queues i)) in
    record {
      pool = rewritten_pool p q bits;
      queue = with_level q i xs;
      returns =
          rw (bitmap_mut_allocated p q v a.id_pos a.id_next (λ bits. set_bit bits i))
            (rw (get_elem?-eq-get_or q.queues i none (omega (arith, a.size)), e));
      is_pool = IsPool-set p id bits v a.id_next;
      allocated =
          rewritten p q i bits xs v a small
            (Records-set_bit (get_or p.slots id 0) (levels q) i (level (levels q) i) task b
              a.recorded)
            (AtLevel-append priority_of i (level (levels q) i) task refl (a.sorted i));
      others = KeepsOthers-set p q bits;
      placed =
          rw (map-set q.queues i xs)
            (order-append priority_of no_priorities i (levels q) task small b refl a.sorted);
    }

push_ensures :
    (p p' : BitmapPool) (q q' : TaskHandlePriorityQueue) (task : TaskHandle)
    → ensure_bitmap p q ≡ ensure_bitmap p' q'
    → push p q task ≡ push p' q' task
unfolding push
push_ensures p p' q q' task e =
    rw (bitmap_mut_ensures (λ bits. set_bit bits task.priority) p p' q q' e)

-- On a usable queue, fresh or not, `push` does not panic. It keeps the pool and the queue valid and
-- puts the handle behind all handles that are at least as urgent, before all others. Every other
-- queue with a bitmap stays valid.
pub push_handle_refines :
    (p : BitmapPool) (q : TaskHandlePriorityQueue) (task : TaskHandle)
    → IsPool p
    → IsUsable p q
    → task.priority < no_priorities
    → Pushes p q task (push p q task)
push_handle_refines p q task v u small =
    let s = settle p q v u in
    let d = push_allocated s.pool s.queue task s.is_pool s.allocated small in
    record {
      pool = d.pool;
      queue = d.queue;
      returns = push_ensures p s.pool q s.queue task s.ensures ∙ d.returns;
      is_pool = d.is_pool;
      allocated = d.allocated;
      others = KeepsOthers-trans p q s.pool s.queue d.pool d.queue.prio_bitmap_id s.others d.others;
      placed =
          d.placed
          ∙ ap (λ qs. insert priority_of task (order no_priorities (map entries qs))) s.same;
    }
