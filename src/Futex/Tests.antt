-- ===== src/Futex/Tests.antt =====
-- Concrete waits and wakes.
use hermit_kernel.Base.{ℕ, ◌<◌, ◌≡◌, refl, ap, true, false, Option, none, some, [], ◌∷◌, arith}
use hermit_kernel.Base.Lists.{length, replicate, get_or-replicate}
use hermit_kernel.Base.Int.{pos}
use hermit_kernel.Task.Types.{TaskHandle, Tasks, TaskStatus, FrameLocation, EntryPointId}
use hermit_kernel.Task.ReadyQueue.{new as no_tasks}
use hermit_kernel.Task.ReadyQueue.Order.{new-IsValid}
use hermit_kernel.Timers.{Source, not_set}
use hermit_kernel.Blocked.Wakeup.{IsValid}
use hermit_kernel.Scheduler.{PerCoreScheduler}
use hermit_kernel.Scheduler.Wakeups.{AreWoken, first}
use hermit_kernel.Task.HandleQueue.{any_id}
use hermit_kernel.Task.HandleQueue.Pool.{BitmapPool, max_bitmap_pool}
use hermit_kernel.Task.HandleQueue.Repr.{IsPool}
use hermit_kernel.Task.Levels.Priority.{insert}
use hermit_kernel.Futex.{
  Futexes, Start, Turn, i32_max, with_word, wait, wait_and_set, wait_turn, wake, wake_or_set,
}
use hermit_kernel.Futex.Lot.{IsLot, waiting_at}
use hermit_kernel.Futex.Waits.{Starts, wait_lem}
use hermit_kernel.Futex.Wakes.{WakesBoth, woken_of, wake_lem}
use hermit_kernel.Futex.Progress.{no_wake_up_lost}

abbrev start_pool : BitmapPool
start_pool = record { slots = replicate max_bitmap_pool 0; next = 1 }

start_pool-IsPool : IsPool start_pool
start_pool-IsPool = record {
  size = refl;
  started = omega arith;
  bound = omega arith;
  clean = λ j h. get_or-replicate max_bitmap_pool j 0;
}

-- Nobody waits, and every word is 7.
abbrev start : Futexes
start = record { pool = start_pool; parking_lot = λ a. none; words = λ a. 7 }

start-IsLot : IsLot start
start-IsLot = record {
  is_pool = start_pool-IsPool;
  allocated = λ a q e. absurd cc;
  nonempty = λ a q e. absurd cc;
  apart = λ a b q r n e f. absurd cc;
}

abbrev futex : ℕ
futex = 4096

abbrev worker : TaskHandle
worker = record { id = 4; priority = 2 }

abbrev other : TaskHandle
other = record { id = 5; priority = 3 }

wait_lem_example :
    Starts start futex (some 50) true 100 worker (wait start futex 7 (some 50) true 100 worker) true
    × Starts
        (with_word start futex 9)
        futex
        (some 50)
        true
        100
        worker
        (wait_and_set start futex 7 (some 50) true 9 100 worker)
        true
wait_lem_example =
    wait_lem start futex 7 (some 50) true 9 100 worker start-IsLot (omega arith) (omega arith)

abbrev parked :
    Starts start futex (some 50) true 100 worker (wait start futex 7 (some 50) true 100 worker) true
parked =
    (wait_lem start futex 7 (some 50) true 9 100 worker start-IsLot (omega arith) (omega arith)).0

-- The blocked tasks of core 0, of which task 4 has a deadline.
abbrev tasks : Tasks
tasks r = record {
  id = r;
  status = TaskStatus.blocked;
  prio = 2;
  last_stack_pointer = 0;
  core_id = 0;
  frame_location = FrameLocation.in_slot;
  slot = none;
  wake_pending = false;
  last_touch = 0;
  entry = 0;
  entry_arg = 0;
  entry_point_id = EntryPointId.app_task;
}

abbrev scheduler : PerCoreScheduler
scheduler = record {
  slots = record { owners = []; memory = λ a. a };
  blocked_tasks = record {
    list =
        record { task = 4; wakeup_time = some 150 } ∷ record { task = 6; wakeup_time = none } ∷ [];
    tasks = tasks;
    timers = record {
      list = record {
        slot_0 = record { source = Source.network; wakeup_time = not_set };
        slot_1 = record { source = Source.scheduler; wakeup_time = 100 };
      };
      oneshot = some 100;
    };
  };
  ready_queue = no_tasks;
}

scheduler-IsValid : IsValid scheduler.blocked_tasks
scheduler-IsValid = record {
  ordered = ((refl, tt), (tt, tt));
  legal = (omega arith, (tt, tt));
  is_armed = record {
    is_list = record {
      source_0 = refl;
      source_1 = refl;
      word_0 = omega arith;
      word_1 = omega arith;
    };
    armed = refl;
  };
  covered = omega arith;
}

-- One task waits.
abbrev one : Futexes
one = parked.1

one-waits : waiting_at one futex ≡ worker ∷ []
unfolding insert
one-waits = parked.4.waits

one-absent : any_id 5 (waiting_at one futex) ≡ false
unfolding any_id
one-absent = ap (any_id 5) one-waits

one-short : length (waiting_at one futex) < 2
one-short = let e = ap length one-waits in omega (arith, e)

wake_lem_example :
    WakesBoth 0 one futex 8
      (woken_of one futex i32_max)
      (waiting_at one futex)
      (λ s. wake 2 0 one s futex (pos i32_max))
      (λ s. wake_or_set 2 0 one s futex (pos i32_max) 8)
wake_lem_example = wake_lem 2 0 one futex i32_max parked.4.is_lot (omega arith) 8 one-short

no_wake_up_lost_example :
    (until : Option ℕ) × (st₁ : Futexes) × (st₂ : Futexes) × (st₃ : Futexes)
    × (s' : PerCoreScheduler) × (wait start futex 7 (some 50) true 100 worker
        ≡ some (Start.blocks until, st₁))
    × (wake 3 0 st₁ scheduler futex (pos i32_max) ≡ some (pos 1, (st₂, s')))
    × (wait_turn st₂ futex until 200 worker ≡ some (Turn.was_woken, st₃))
    × AreWoken scheduler (worker ∷ []) s'
unfolding insert any_id
no_wake_up_lost_example =
    no_wake_up_lost 3 0 start scheduler futex 7 (some 50) true 100 200 worker start-IsLot
      (omega arith) (omega arith) refl (omega arith) scheduler-IsValid (new-IsValid tasks)
      (first refl ((refl, refl), omega arith), refl, tt)
