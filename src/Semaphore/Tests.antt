-- ===== src/Semaphore/Tests.antt =====
-- Semaphores at concrete inputs.
use hermit_kernel.Base.{refl, inr, true, Option, none, some, List, arith}
use hermit_kernel.Base.Lists.{replicate, get_or-replicate}
use hermit_kernel.Base.Int.{pos}
use hermit_kernel.Task.Types.{TaskHandle}
use hermit_kernel.Task.Levels.{no_priorities}
use hermit_kernel.Task.HandleQueue.Pool.{BitmapPool, max_bitmap_pool}
use hermit_kernel.Task.HandleQueue.Repr.{IsPool, IsFresh}
use hermit_kernel.Task.HandleQueue.Remove.{fresh-OnlyAt}
use hermit_kernel.Semaphore.{SemaphoreState, Turn, acquire_turn}
use hermit_kernel.Semaphore.Permits.{Turns, outcome, acquire_turn_lem}

-- A pool from which one bitmap was taken.
abbrev pool : BitmapPool
pool = record { slots = replicate max_bitmap_pool 0; next = 1 }

pool-IsPool : IsPool pool
pool-IsPool = record {
  size = refl;
  started = omega arith;
  bound = omega arith;
  clean = λ j h. get_or-replicate max_bitmap_pool j 0;
}

-- A semaphore without permits, for which no task has waited yet.
abbrev taken : SemaphoreState
taken = record {
  count = pos 0;
  queue = record { queues = replicate no_priorities none; prio_bitmap_id = 0 };
}

taken-IsFresh : IsFresh pool taken.queue
taken-IsFresh = record {
  size = refl;
  no_id = refl;
  unused = λ j. get_or-replicate {A = Option (List TaskHandle)} no_priorities j none;
  room = omega arith;
}

abbrev normal : TaskHandle
normal = record { id = 4; priority = 2 }

acquire_turn_lem_example :
    Turns pool taken normal
      (outcome taken (some 90) 50 true)
      (acquire_turn pool taken normal (some 90) 50 true)
acquire_turn_lem_example =
    acquire_turn_lem pool taken normal (some 90) 50 true pool-IsPool (inr taken-IsFresh)
      (omega arith) (fresh-OnlyAt pool taken.queue 4 2 taken-IsFresh)

-- The semaphore after that turn, in which the task waits.
abbrev waited :
    Turns pool taken normal Turn.blocks (acquire_turn pool taken normal (some 90) 50 true)
waited =
    acquire_turn_lem pool taken normal (some 90) 50 true pool-IsPool (inr taken-IsFresh)
      (omega arith) (fresh-OnlyAt pool taken.queue 4 2 taken-IsFresh)
