-- ===== src/Blocked/Tests.antt =====
-- The queue of blocked tasks at concrete inputs.
use hermit_kernel.Base.{◌+◌, ◌≡◌, refl, true, false, none, some, [], ◌∷◌, arith}
use hermit_kernel.Base.Tests.{◌==◌, if◌then◌else◌}
use hermit_kernel.Task.Types.{TaskStatus, FrameLocation, EntryPointId, Tasks, TaskHandle}
use hermit_kernel.Timers.{Timers, Source, not_set}
use hermit_kernel.Timers.Armed.{IsArmed}
use hermit_kernel.Blocked.{BlockedTask, BlockedTaskQueue, add, custom_wakeup}
use hermit_kernel.Base.Sort.{least}
use hermit_kernel.Blocked.Victim.{
  waits_id, residents, candidate, goes_first, is_stale, select_eviction_victim,
  select_eviction_victim_lem,
}
use hermit_kernel.Blocked.Wakeup.{IsValid, Adds, add_lem}
use hermit_kernel.Blocked.Waking.{Wakes, custom_wakeup_lem}

-- Task 3 runs, and all others are blocked.
abbrev tasks : Tasks
tasks r = record {
  id = r;
  status = if r == 3 then TaskStatus.running else TaskStatus.blocked;
  prio = 2;
  last_stack_pointer = 0;
  core_id = 0;
  frame_location = FrameLocation.in_slot;
  slot = none;
  wake_pending = false;
  last_touch = 0;
  entry = 0;
  entry_arg = 0;
  entry_point_id = EntryPointId.idle;
}

abbrev timers : Timers
timers = record {
  list = record {
    slot_0 = record { source = Source.network; wakeup_time = not_set };
    slot_1 = record { source = Source.scheduler; wakeup_time = 100 };
  };
  oneshot = some 100;
}

timers-IsArmed : IsArmed timers
timers-IsArmed = record {
  is_list = record { source_0 = refl; source_1 = refl; word_0 = omega arith; word_1 = omega arith };
  armed = refl;
}

abbrev first_node : BlockedTask
first_node = record { task = 1; wakeup_time = some 100 }

abbrev last_node : BlockedTask
last_node = record { task = 2; wakeup_time = none }

abbrev queue : BlockedTaskQueue
queue = record { list = first_node ∷ last_node ∷ []; tasks = tasks; timers = timers }

queue-IsValid : IsValid queue
queue-IsValid = record {
  ordered = ((refl, tt), (tt, tt));
  legal = (omega arith, (tt, tt));
  is_armed = timers-IsArmed;
  covered = omega arith;
}

add_lem_example : Adds queue 3 (some 150) (add queue 3 (some 150))
add_lem_example = add_lem queue 3 (some 150) queue-IsValid (omega arith) refl

abbrev handle : TaskHandle
handle = record { id = 2; priority = 2 }

custom_wakeup_lem_example :
    Wakes queue (first_node ∷ []) last_node [] (custom_wakeup 0 queue handle)
custom_wakeup_lem_example =
    custom_wakeup_lem 0 queue handle (first_node ∷ []) [] last_node queue-IsValid refl (refl, tt)
      refl (refl, refl)

-- Two tasks that wait with their frames in slots, of which the second has no deadline.
abbrev slot_queue : BlockedTaskQueue
slot_queue = record queue { tasks = λ r. record (tasks r) { slot = some r; last_touch = 5000 + r } }

select_eviction_victim_lem_example :
    (select_eviction_victim slot_queue 9 20000 ≡ some (some 2))
    × (goes_first slot_queue.tasks (candidate last_node) (candidate first_node) ≡ true)
    × (is_stale slot_queue.tasks 20000 (candidate last_node) ≡ true)
unfolding waits_id residents least
select_eviction_victim_lem_example =
    select_eviction_victim_lem slot_queue 9 20000 last_node first_node (omega arith) (omega arith)
