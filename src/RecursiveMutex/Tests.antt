-- ===== src/RecursiveMutex/Tests.antt =====
-- Recursive mutexes at concrete inputs.
use hermit_kernel.Base.{refl, inr, Option, none, List, arith}
use hermit_kernel.Base.Lists.{replicate, get_or-replicate}
use hermit_kernel.Task.Types.{TaskHandle}
use hermit_kernel.Task.Levels.{no_priorities}
use hermit_kernel.Task.HandleQueue.Pool.{BitmapPool, max_bitmap_pool}
use hermit_kernel.Task.HandleQueue.Repr.{IsPool, IsFresh}
use hermit_kernel.RecursiveMutex.{RecursiveMutexState, acquire_turn}
use hermit_kernel.RecursiveMutex.Owner.{Waits, owned_by, exclusion_lem}

abbrev pool : BitmapPool
pool = record { slots = replicate max_bitmap_pool 0; next = 1 }

pool-IsPool : IsPool pool
pool-IsPool = record {
  size = refl;
  started = omega arith;
  bound = omega arith;
  clean = λ j h. get_or-replicate max_bitmap_pool j 0;
}

abbrev free : RecursiveMutexState
free = record {
  current_tid = none;
  count = 0;
  queue = record { queues = replicate no_priorities none; prio_bitmap_id = 0 };
}

free-IsFresh : IsFresh pool free.queue
free-IsFresh = record {
  size = refl;
  no_id = refl;
  unused = λ j. get_or-replicate {A = Option (List TaskHandle)} no_priorities j none;
  room = omega arith;
}

abbrev normal : TaskHandle
normal = record { id = 4; priority = 2 }

exclusion_lem_example :
    Waits pool (owned_by free 7 1) normal (acquire_turn pool (owned_by free 7 1) 4 normal)
exclusion_lem_example =
    exclusion_lem pool (owned_by free 7 1) 7 4 normal pool-IsPool (inr free-IsFresh) (omega arith)
      refl refl
