-- ===== src/Task/HandleQueue/Sharing.antt =====
-- The limits of the static pool: its first bitmap, and its last.
use hermit_kernel.Base.{
  ℕ, ◌≤◌, ◌<◌, ◌≡◌, refl, ap, ◌∙◌, true, false, Option, none, some, List, [], ◌∷◌, arith,
}
use hermit_kernel.Base.Tests.{ltb, ==_refl}
use hermit_kernel.Base.Lists.{
  get_elem?, set, get_or-set_self, length-set, get_elem?-eq-get_or, replicate, get_or-replicate,
}
use hermit_kernel.Base.Bits.{set_bit}
use hermit_kernel.Task.Types.{TaskHandle}
use hermit_kernel.Task.Levels.{no_priorities, msb}
use hermit_kernel.Task.HandleQueue.{
  TaskHandlePriorityQueue, new, ensure_bitmap, push, pop, contains, any_id, is_empty,
}
use hermit_kernel.Task.HandleQueue.Pool.{BitmapPool, initial_pool, max_bitmap_pool, alloc_bitmap_id}

-- Once 256 bitmaps are allocated, the first use of a queue that has none panics: `push`, `pop` and
-- `is_empty` alike, whatever the queue holds.
pub exhausted :
    (p : BitmapPool) (q : TaskHandlePriorityQueue) (task : TaskHandle)
    → max_bitmap_pool ≤ p.next
    → q.prio_bitmap_id ≡ 0
    → (push p q task ≡ none) × (pop p q ≡ none) × (is_empty p q ≡ none)
unfolding push pop is_empty ensure_bitmap alloc_bitmap_id
exhausted p q task full no_id =
    let e : ltb p.next max_bitmap_pool ≡ false = ground arith in
    (rw (no_id, e), rw (no_id, e), rw (no_id, e))

-- The very first queue of the kernel is given the bitmap 0, which stands for no bitmap: a handle
-- that is pushed to it first of all is in the queue, and the next `pop` takes another bitmap and
-- returns none.
pub first_push_lost :
    (task : TaskHandle)
    → task.priority < no_priorities
    → (p : BitmapPool) × (q : TaskHandlePriorityQueue) × (p' : BitmapPool)
      × (q' : TaskHandlePriorityQueue) × (push initial_pool new task ≡ some (p, q))
      × (contains q task ≡ some true)
      × (pop p q ≡ some (none, p', q'))
unfolding push pop contains any_id ensure_bitmap alloc_bitmap_id new msb
first_push_lost task small = (
  record { slots = slots; next = 1 },
  q,
  record { slots = slots; next = 2 },
  record q { prio_bitmap_id = 1 },
  rw read,
  rw (back, ==_refl task.id),
  refl,
)
  where
    i : ℕ
    i = task.priority

    qs : List (Option (List TaskHandle))
    qs = replicate no_priorities none

    q : TaskHandlePriorityQueue
    q = record { queues = set qs i (some (task ∷ [])); prio_bitmap_id = 0 }

    slots : List ℕ
    slots = set (replicate max_bitmap_pool 0) 0 (set_bit 0 i)

    read : get_elem? qs i ≡ some none
    read =
        get_elem?-eq-get_or qs i none small
        ∙ ap some (get_or-replicate {A = Option (List TaskHandle)} no_priorities i none)

    back : get_elem? (set qs i (some (task ∷ []))) i ≡ some (some (task ∷ []))
    back =
        get_elem?-eq-get_or (set qs i (some (task ∷ []))) i none
          (omega (arith, length-set qs i (some (task ∷ []))))
        ∙ ap some (get_or-set_self qs i (some (task ∷ [])) none small)
