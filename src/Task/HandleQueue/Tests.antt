-- ===== src/Task/HandleQueue/Tests.antt =====
-- The handle queue at concrete inputs.
use hermit_kernel.Base.{◌≡◌, refl, ◌⊎◌, inl, inr, true, Option, none, some, List, [], ◌∷◌, arith}
use hermit_kernel.Base.Lists.{replicate, get_or-replicate}
use hermit_kernel.Base.Bits.{set_bit}
use hermit_kernel.Task.Types.{TaskHandle}
use hermit_kernel.Task.Levels.{no_priorities}
use hermit_kernel.Task.HandleQueue
use hermit_kernel.Task.HandleQueue.{TaskHandlePriorityQueue}
use hermit_kernel.Task.HandleQueue.Pool.{BitmapPool, alloc_bitmap_id, initial_pool, max_bitmap_pool}
use hermit_kernel.Task.HandleQueue.Repr.{IsPool, IsFresh, waiting, levels, level-map}
use hermit_kernel.Task.HandleQueue.Order.{Pushes, push_handle_refines}
use hermit_kernel.Task.HandleQueue.Take.{Pops, PopsNothing, pop_handle_refines}
use hermit_kernel.Task.HandleQueue.Remove.{contains_lem, OnlyAt}
use hermit_kernel.Task.HandleQueue.Sharing.{first_push_lost}

-- A pool from which one bitmap was taken.
abbrev pool : BitmapPool
pool = record { slots = replicate max_bitmap_pool 0; next = 1 }

pool-IsPool : IsPool pool
pool-IsPool = record {
  size = refl;
  started = omega arith;
  bound = omega arith;
  clean = λ j h. get_or-replicate max_bitmap_pool j 0;
}

abbrev empty : TaskHandlePriorityQueue
empty = record { queues = replicate no_priorities none; prio_bitmap_id = 0 }

empty-IsFresh : IsFresh pool empty
empty-IsFresh = record {
  size = refl;
  no_id = refl;
  unused = λ j. get_or-replicate {A = Option (List TaskHandle)} no_priorities j none;
  room = omega arith;
}

abbrev normal : TaskHandle
normal = record { id = 4; priority = 2 }

push_handle_refines_example : Pushes pool empty normal (HandleQueue.push pool empty normal)
push_handle_refines_example =
    push_handle_refines pool empty normal pool-IsPool (inr empty-IsFresh) (omega arith)

-- The queue after that push.
abbrev pushed : Pushes pool empty normal (HandleQueue.push pool empty normal)
pushed = push_handle_refines pool empty normal pool-IsPool (inr empty-IsFresh) (omega arith)

pop_handle_refines_example :
    PopsNothing pushed.pool pushed.queue (HandleQueue.pop pushed.pool pushed.queue)
    ⊎ Pops pushed.pool pushed.queue (HandleQueue.pop pushed.pool pushed.queue)
pop_handle_refines_example =
    pop_handle_refines pushed.pool pushed.queue pushed.is_pool (inl pushed.allocated)

-- A pushed handle is popped again, and no other.
push_then_pop :
    HandleQueue.push pool empty normal
    ≡ some (
      record { slots = 0 ∷ 4 ∷ replicate 254 0; next = 2 },
      record { queues = none ∷ none ∷ some (normal ∷ []) ∷ replicate 28 none; prio_bitmap_id = 1 },
    )
unfolding HandleQueue.push HandleQueue.ensure_bitmap alloc_bitmap_id set_bit
push_then_pop = refl

nowhere_else : OnlyAt 4 2 (levels empty)
unfolding HandleQueue.any_id
nowhere_else j h =
    rw (
      level-map empty.queues j,
      get_or-replicate {A = Option (List TaskHandle)} no_priorities j none,
    )

contains_lem_example :
    HandleQueue.contains empty normal ≡ some (HandleQueue.any_id 4 (waiting empty))
contains_lem_example = contains_lem empty normal (omega arith) nowhere_else refl

first_push_lost_example :
    (p : BitmapPool) × (q : TaskHandlePriorityQueue) × (p' : BitmapPool)
    × (q' : TaskHandlePriorityQueue) × (HandleQueue.push initial_pool HandleQueue.new normal
        ≡ some (p, q))
    × (HandleQueue.contains q normal ≡ some true)
    × (HandleQueue.pop p q ≡ some (none, p', q'))
first_push_lost_example = first_push_lost normal (omega arith)
