-- ===== src/Task/HandleQueue/Repr.antt =====
-- The representation invariant of a handle queue and of the pool that holds its bitmap.
use mathlib.Core.List.{map}
use hermit_kernel.Base.{
  ℕ, zero, suc, ◌+◌, ◌%◌, ◌^◌, ◌≤◌, ◌<◌, ◌≡◌, ◌≢◌, refl, sym, ap, ◌∙◌, ◌⊎◌, inl, inr, Option, none,
  some, List, [], ◌∷◌, arith,
}
use hermit_kernel.Base.Tests.{lt→ltb}
use hermit_kernel.Base.Lists.{length, get_or, set, length-set, get_or-set_ne, get_elem?-eq-get_or}
use hermit_kernel.Base.Bits.{bit-zero}
use hermit_kernel.Task.Types.{TaskHandle}
use hermit_kernel.Task.Levels.{no_priorities, level, Records, order}
use hermit_kernel.Task.Levels.Priority.{IsSorted}
use hermit_kernel.Task.HandleQueue.{TaskHandlePriorityQueue, ensure_bitmap, bitmap, bitmap_mut}
use hermit_kernel.Task.HandleQueue.Pool.{BitmapPool, max_bitmap_pool, alloc_bitmap_id}

abbrev pub entries : Option (List TaskHandle) → List TaskHandle
entries none = []
entries (some l) = l

-- The levels, where a level with no deque is empty.
abbrev pub levels : TaskHandlePriorityQueue → List (List TaskHandle)
levels q = map entries q.queues

-- The handles in the order in which `pop` returns them.
abbrev pub waiting : TaskHandlePriorityQueue → List TaskHandle
waiting q = order no_priorities (levels q)

abbrev pub priority_of : TaskHandle → ℕ
priority_of h = h.priority

-- The pool after its first allocation: what is not allocated is clear.
pub record IsPool (p : BitmapPool) : Type 0 where
  pub size : length p.slots ≡ max_bitmap_pool
  pub started : 0 < p.next
  pub bound : p.next ≤ max_bitmap_pool
  pub clean : (j : ℕ) → p.next ≤ j → get_or p.slots j 0 ≡ 0

-- The queue has a bitmap, which records its levels.
pub record IsAllocated (p : BitmapPool) (q : TaskHandlePriorityQueue) : Type 0 where
  pub size : length q.queues ≡ no_priorities
  pub id_pos : 0 < q.prio_bitmap_id
  pub id_next : q.prio_bitmap_id < p.next
  pub recorded : Records (get_or p.slots q.prio_bitmap_id 0) (levels q)
  pub sorted : IsSorted priority_of (levels q)

-- The queue was not used yet, and there is a bitmap for it.
pub record IsFresh (p : BitmapPool) (q : TaskHandlePriorityQueue) : Type 0 where
  pub size : length q.queues ≡ no_priorities
  pub no_id : q.prio_bitmap_id ≡ 0
  pub unused : (j : ℕ) → get_or q.queues j none ≡ none
  pub room : p.next < max_bitmap_pool

abbrev pub IsUsable : BitmapPool → TaskHandlePriorityQueue → Type 0
IsUsable p q = IsAllocated p q ⊎ IsFresh p q

pub level-map :
    (qs : List (Option (List TaskHandle))) (j : ℕ)
    → level (map entries qs) j ≡ entries (get_or qs j none)
level-map [] j = refl
level-map (x ∷ xs) zero = refl
level-map (x ∷ xs) (suc j) = level-map xs j

pub map-set :
    (qs : List (Option (List TaskHandle))) (i : ℕ) (l : List TaskHandle)
    → map entries (set qs i (some l)) ≡ set (map entries qs) i l
map-set [] i l = refl
map-set (x ∷ xs) zero l = refl
map-set (x ∷ xs) (suc i) l = ap (◌∷◌ (entries x)) (map-set xs i l)

pub length-levels : (qs : List (Option (List TaskHandle))) → length (map entries qs) ≡ length qs
length-levels [] = refl
length-levels (x ∷ xs) = ap suc (length-levels xs)

-- A queue with a bitmap keeps it.
pub ensure_allocated :
    (p : BitmapPool) (q : TaskHandlePriorityQueue)
    → 0 < q.prio_bitmap_id
    → ensure_bitmap p q ≡ some (q.prio_bitmap_id, p, q)
unfolding ensure_bitmap
ensure_allocated p q h = ground arith

-- The pool and the queue after the first use of a fresh queue.
abbrev pub settled_pool : BitmapPool → BitmapPool
settled_pool p = record p { next = p.next + 1 }

abbrev pub settled_queue : BitmapPool → TaskHandlePriorityQueue → TaskHandlePriorityQueue
settled_queue p q = record q { prio_bitmap_id = p.next }

ensure_fresh :
    (p : BitmapPool) (q : TaskHandlePriorityQueue)
    → IsFresh p q
    → ensure_bitmap p q ≡ some (p.next, settled_pool p, settled_queue p q)
unfolding ensure_bitmap alloc_bitmap_id
ensure_fresh p q f =
    let e : (p.next + 1) % 2 ^ 64 ≡ p.next + 1 = omega (arith, f.room) in
    rw (f.no_id, lt→ltb p.next max_bitmap_pool f.room, e)

settled-IsPool : (p : BitmapPool) → IsPool p → p.next < max_bitmap_pool → IsPool (settled_pool p)
settled-IsPool p v l = record {
  size = v.size;
  started = omega arith;
  bound = omega arith;
  clean = λ j h. v.clean j (omega arith);
}

settled-IsAllocated :
    (p : BitmapPool) (q : TaskHandlePriorityQueue)
    → IsPool p
    → IsFresh p q
    → IsAllocated (settled_pool p) (settled_queue p q)
settled-IsAllocated p q v f = record {
  size = f.size;
  id_pos = v.started;
  id_next = omega arith;
  recorded = λ j. rw (v.clean p.next (omega arith), level-map q.queues j, f.unused j) (bit-zero j);
  sorted = λ j. rw (level-map q.queues j, f.unused j) tt;
}

-- The queues that have a bitmap of their own stay valid in the pool `p'`, and `id` is none of
-- theirs.
abbrev pub KeepsOthers : BitmapPool → TaskHandlePriorityQueue → BitmapPool → ℕ → Type 0
KeepsOthers p q p' id =
    (other : TaskHandlePriorityQueue)
    → IsAllocated p other
    → other.prio_bitmap_id ≢ q.prio_bitmap_id
    → IsAllocated p' other × (other.prio_bitmap_id ≢ id)

settled-KeepsOthers :
    (p : BitmapPool) (q : TaskHandlePriorityQueue) → KeepsOthers p q (settled_pool p) p.next
settled-KeepsOthers p q other a n = (
  record {
    size = a.size;
    id_pos = a.id_pos;
    id_next = omega (arith, a.id_next);
    recorded = a.recorded;
    sorted = a.sorted;
  },
  omega (arith, a.id_next),
)

-- Where a usable queue stands once it has its bitmap.
pub record Settles (p : BitmapPool) (q : TaskHandlePriorityQueue) : Type 0 where
  pub pool : BitmapPool
  pub queue : TaskHandlePriorityQueue
  pub is_pool : IsPool pool
  pub allocated : IsAllocated pool queue
  pub same : queue.queues ≡ q.queues
  pub ensures : ensure_bitmap p q ≡ ensure_bitmap pool queue
  pub others : KeepsOthers p q pool queue.prio_bitmap_id

pub settle : (p : BitmapPool) (q : TaskHandlePriorityQueue) → IsPool p → IsUsable p q → Settles p q
settle p q v (inl a) = record {
  pool = p;
  queue = q;
  is_pool = v;
  allocated = a;
  same = refl;
  ensures = refl;
  others = λ other b n. (b, n);
}
settle p q v (inr f) =
    let a = settled-IsAllocated p q v f in
    record {
      pool = settled_pool p;
      queue = settled_queue p q;
      is_pool = settled-IsPool p v f.room;
      allocated = a;
      same = refl;
      ensures =
          ensure_fresh p q f ∙ sym (ensure_allocated (settled_pool p) (settled_queue p q) a.id_pos);
      others = settled-KeepsOthers p q;
    }

-- What reading and writing the bitmap does to a queue that has one.
module _ (p : BitmapPool) (q : TaskHandlePriorityQueue) (v : IsPool p) (pos : 0 < q.prio_bitmap_id)
    (l : q.prio_bitmap_id < p.next) where
  abbrev bits_of : ℕ
  bits_of = get_or p.slots q.prio_bitmap_id 0

  pub bitmap_allocated : bitmap p q ≡ some (bits_of, p, q)
  unfolding bitmap
  bitmap_allocated =
      rw (ensure_allocated p q pos)
        (rw (get_elem?-eq-get_or p.slots q.prio_bitmap_id 0 (omega arith)))

  pub bitmap_mut_allocated :
      (f : ℕ → ℕ)
      → bitmap_mut f p q ≡ some (record p { slots = set p.slots q.prio_bitmap_id (f bits_of) }, q)
  unfolding bitmap_mut
  bitmap_mut_allocated f =
      rw (ensure_allocated p q pos)
        (rw (get_elem?-eq-get_or p.slots q.prio_bitmap_id 0 (omega arith)))

-- Writing the bitmap of an allocated queue keeps the pool in order.
pub IsPool-set :
    (p : BitmapPool) (i x : ℕ)
    → IsPool p
    → i < p.next
    → IsPool (record p { slots = set p.slots i x })
IsPool-set p i x v l = record {
  size = length-set p.slots i x ∙ v.size;
  started = v.started;
  bound = v.bound;
  clean = λ j h. get_or-set_ne p.slots i j x 0 (omega arith) ∙ v.clean j h;
}

pub KeepsOthers-set :
    (p : BitmapPool) (q : TaskHandlePriorityQueue) (bits : ℕ)
    → KeepsOthers p q (record p { slots = set p.slots q.prio_bitmap_id bits }) q.prio_bitmap_id
KeepsOthers-set p q bits other a n = (
  record {
    size = a.size;
    id_pos = a.id_pos;
    id_next = a.id_next;
    recorded =
        rw (get_or-set_ne p.slots q.prio_bitmap_id other.prio_bitmap_id bits 0 (λ e. n (sym e)))
          a.recorded;
    sorted = a.sorted;
  },
  n,
)

-- One operation after another.
pub KeepsOthers-trans :
    (p : BitmapPool) (q : TaskHandlePriorityQueue) (p₁ : BitmapPool) (q₁ : TaskHandlePriorityQueue)
    (p₂ : BitmapPool) (id : ℕ)
    → KeepsOthers p q p₁ q₁.prio_bitmap_id
    → KeepsOthers p₁ q₁ p₂ id
    → KeepsOthers p q p₂ id
KeepsOthers-trans p q p₁ q₁ p₂ id f g other a n = let (b, m) = f other a n in g other b m
