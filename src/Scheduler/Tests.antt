-- ===== src/Scheduler/Tests.antt =====
-- A dispatch when all slots are taken.
use hermit_kernel.Base.{ℕ, ◌≡◌, ◌≢◌, refl, inl, false, none, some, List, [], ◌∷◌, arith}
use hermit_kernel.Base.Tests.{◌==◌, if◌then◌else◌}
use hermit_kernel.Base.Sort.{least}
use hermit_kernel.Base.Int.{ℤ, pos, negsuc}
use hermit_kernel.Task.Types.{Tasks, TaskStatus, FrameLocation, EntryPointId}
use hermit_kernel.Task.ReadyQueue.{new as no_tasks}
use hermit_kernel.Timers.{Timers, Source, not_set}
use hermit_kernel.Blocked.Victim.{
  waits_id, residents, select_eviction_victim, select_eviction_victim-least,
}
use hermit_kernel.SlotPool.{frame_base}
use hermit_kernel.Scheduler.{PerCoreScheduler, touched, ensure_slot}
use hermit_kernel.Scheduler.Evictions.{Moved, ensure_slot_evicts}

abbrev slots_base : ℕ
slots_base = 1073741824

-- Task 7 has its frame in slot 2 of core 1, the others on their stacks.
abbrev tasks : Tasks
tasks r = record {
  id = r;
  status = TaskStatus.blocked;
  prio = 2;
  last_stack_pointer = if r == 7 then frame_base slots_base 1 2 else 4096;
  core_id = 1;
  frame_location = FrameLocation.in_slot;
  slot = if r == 7 then some 2 else none;
  wake_pending = false;
  last_touch = 5000;
  entry = 0;
  entry_arg = 0;
  entry_point_id = EntryPointId.app_task;
}

abbrev timers : Timers
timers = record {
  list = record {
    slot_0 = record { source = Source.network; wakeup_time = not_set };
    slot_1 = record { source = Source.scheduler; wakeup_time = not_set };
  };
  oneshot = none;
}

abbrev free_core : List ℤ
free_core = negsuc 0 ∷ negsuc 0 ∷ negsuc 0 ∷ []

abbrev full_core : List ℤ
full_core = pos 5 ∷ pos 6 ∷ pos 7 ∷ []

abbrev scheduler : PerCoreScheduler
scheduler = record {
  slots = record { owners = free_core ∷ full_core ∷ free_core ∷ free_core ∷ []; memory = λ a. a };
  blocked_tasks = record {
    list = record { task = 7; wakeup_time = none } ∷ [];
    tasks = tasks;
    timers = timers;
  };
  ready_queue = no_tasks;
}

chosen : select_eviction_victim (touched 20000 9 scheduler).blocked_tasks 9 20000 ≡ some (some 7)
unfolding waits_id residents least
chosen = select_eviction_victim-least (touched 20000 9 scheduler).blocked_tasks 9 20000

apart : ◌≢◌ {A = ℕ} 7 9
apart e = omega (arith, e)

ensure_slot_evicts_example :
    (s' : PerCoreScheduler) × (ensure_slot slots_base 1 20000 9 scheduler ≡ some s')
    × Moved slots_base 1 2 full_core 9 7 (touched 20000 9 scheduler) s'
ensure_slot_evicts_example =
    ensure_slot_evicts slots_base 1 2 9 7 20000 scheduler full_core refl refl refl (omega arith)
      (omega arith) refl refl refl apart (inl (omega arith)) refl refl chosen
