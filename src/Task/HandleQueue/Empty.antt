-- ===== src/Task/HandleQueue/Empty.antt =====
-- The handle queue of src/scheduler/task/mod.rs without an entry: a new one, and `is_empty`.
use hermit_kernel.Base.{
  ℕ, ◌<◌, ◌≡◌, refl, sym, ap, ◌∙◌, inl, inr, Bool, false, Option, none, some, List, [], arith,
}
use hermit_kernel.Base.Tests.{◌==◌, Bool-cases}
use hermit_kernel.Base.Lists.{get_or, get_or-replicate, length-replicate}
use hermit_kernel.Base.Bits.{bit, bit-zero}
use hermit_kernel.Task.Types.{TaskHandle}
use hermit_kernel.Task.Levels.{
  no_priorities, msb-IsHighest, level, is_empty as no_entry, Records-IsWord, order-none,
  empty_of_filled,
}
use hermit_kernel.Task.HandleQueue.{TaskHandlePriorityQueue, ensure_bitmap, new, is_empty}
use hermit_kernel.Task.HandleQueue.Pool.{BitmapPool, max_bitmap_pool}
use hermit_kernel.Task.HandleQueue.Repr.{
  IsPool, IsFresh, IsAllocated, IsUsable, settle, KeepsOthers, entries, levels, waiting, level-map,
  length-levels, bitmap_allocated,
}
use hermit_kernel.Task.HandleQueue.Take.{highest_level, same_waiting}
use hermit_kernel.Task.HandleQueue.Order.{bitmap_ensures}

pub new-IsFresh : (p : BitmapPool) → p.next < max_bitmap_pool → IsFresh p new
unfolding new
new-IsFresh p room = record {
  size = length-replicate {A = Option (List TaskHandle)} no_priorities none;
  no_id = refl;
  unused = λ j. get_or-replicate {A = Option (List TaskHandle)} no_priorities j none;
  room = room;
}

pub waiting-new : waiting new ≡ []
unfolding new
waiting-new = order-none no_priorities (levels new) (λ j.
    level-map new.queues j
    ∙ ap entries (get_or-replicate {A = Option (List TaskHandle)} no_priorities j none))

nonzero : (i n : ℕ) → bit i n ≡ 1 → (n == 0) ≡ false
nonzero i n h = elim (Bool-cases (n == 0)) [
  | inl e ↦
      let z : n ≡ 0 = ground arith in
      let one : 0 ≡ 1 = sym (bit-zero i) ∙ ap (bit i) (sym z) ∙ h in absurd (omega (arith, one))
  | inr e ↦ e
]

-- A queue with a bitmap reads as empty exactly if no handle waits in it.
pub is_empty_lem :
    (p : BitmapPool) (q : TaskHandlePriorityQueue)
    → IsPool p
    → IsAllocated p q
    → is_empty p q ≡ some (no_entry (waiting q), p, q)
unfolding is_empty
is_empty_lem p q v a =
    let bits = get_or p.slots q.prio_bitmap_id 0 in
    let word = Records-IsWord bits (levels q) (length-levels q.queues ∙ a.size) a.recorded in
    let read = bitmap_allocated p q v a.id_pos a.id_next in
    elim (msb-IsHighest bits word) [
      | inl (z, e) ↦
          let empty = order-none no_priorities (levels q) (λ j.
            empty_of_filled (level (levels q) j)
              (sym (a.recorded j) ∙ ap (bit j) z ∙ bit-zero j)) in
          rw (read, z, empty) refl
      | inr (i, e, h) ↦
          let d = highest_level p q i v a h in rw (read, nonzero i bits h.0, d.taken) refl
    ]

-- What `is_empty` does to a usable queue.
pub record Checks (p : BitmapPool) (q : TaskHandlePriorityQueue)
    (out : Option (Bool × BitmapPool × TaskHandlePriorityQueue)) : Type 0 where
  pub pool : BitmapPool
  pub queue : TaskHandlePriorityQueue
  pub returns : out ≡ some (no_entry (waiting q), pool, queue)
  pub is_pool : IsPool pool
  pub allocated : IsAllocated pool queue
  pub others : KeepsOthers p q pool queue.prio_bitmap_id
  pub same : waiting queue ≡ waiting q

is_empty_ensures :
    (p p' : BitmapPool) (q q' : TaskHandlePriorityQueue)
    → ensure_bitmap p q ≡ ensure_bitmap p' q'
    → is_empty p q ≡ is_empty p' q'
unfolding is_empty
is_empty_ensures p p' q q' e = rw (bitmap_ensures p p' q q' e)

-- On a usable queue, fresh or not, `is_empty` says whether a handle waits. The pool, the queue and
-- every other queue with a bitmap stay valid.
pub is_empty_refines :
    (p : BitmapPool) (q : TaskHandlePriorityQueue)
    → IsPool p
    → IsUsable p q
    → Checks p q (is_empty p q)
is_empty_refines p q v u =
    let s = settle p q v u in
    let same = same_waiting p q s in
    record {
      pool = s.pool;
      queue = s.queue;
      returns =
          is_empty_ensures p s.pool q s.queue s.ensures
          ∙ is_empty_lem s.pool s.queue s.is_pool s.allocated
          ∙ ap (λ w. some (no_entry w, s.pool, s.queue)) (sym same);
      is_pool = s.is_pool;
      allocated = s.allocated;
      others = s.others;
      same = sym same;
    }
