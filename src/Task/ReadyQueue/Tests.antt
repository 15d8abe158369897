-- ===== src/Task/ReadyQueue/Tests.antt =====
-- The ready queue at concrete inputs.
use hermit_kernel.Base.{ℕ, ◌≡◌, ◌≢◌, refl, ◌⊎◌, true, false, none, some, List, [], ◌∷◌, arith}
use hermit_kernel.Base.Lists.{set, replicate}
use hermit_kernel.Base.Bits.{set_bit, bit}
use hermit_kernel.Task.Types.{Tasks, TaskStatus, FrameLocation, EntryPointId, idle_prio}
use hermit_kernel.Task.Levels.{no_priorities, msb, order}
use hermit_kernel.Task.ReadyQueue
use hermit_kernel.Task.ReadyQueue.{PriorityTaskQueue}
use hermit_kernel.Task.ReadyQueue.Order.{
  IsValid, waiting, Pushes, Pops, new-IsValid, push_task_refines, push-IsValid,
}
use hermit_kernel.Task.ReadyQueue.Serve.{pop_task_refines, highest_priority_lem}

-- Task `r` has the identifier and the priority `r`.
abbrev tasks : Tasks
tasks r = record {
  id = r;
  status = TaskStatus.ready;
  prio = r;
  last_stack_pointer = 0;
  core_id = 0;
  frame_location = FrameLocation.in_slot;
  slot = none;
  wake_pending = false;
  last_touch = 0;
  entry = 0;
  entry_arg = 0;
  entry_point_id = EntryPointId.app_task;
}

abbrev one_ready : PriorityTaskQueue
one_ready = record { queues = set (replicate no_priorities []) 2 (2 ∷ []); prio_bitmap = 4 }

abbrev two_ready : PriorityTaskQueue
two_ready = record {
  queues = set (set (replicate no_priorities []) 2 (2 ∷ [])) 5 (5 ∷ []);
  prio_bitmap = 36;
}

one_ready-IsValid : IsValid tasks one_ready
unfolding ReadyQueue.push ReadyQueue.new set_bit
one_ready-IsValid = push-IsValid tasks 2 (omega arith) (new-IsValid tasks) refl

two_ready-IsValid : IsValid tasks two_ready
unfolding ReadyQueue.push set_bit
two_ready-IsValid = push-IsValid tasks 5 (omega arith) one_ready-IsValid refl

served_in_order : waiting two_ready ≡ 5 ∷ 2 ∷ []
unfolding order
served_in_order = refl

pop_with_prio_refuses : ReadyQueue.pop_with_prio two_ready 6 ≡ some (none, two_ready)
unfolding ReadyQueue.pop_with_prio msb bit
pop_with_prio_refuses = refl

new-IsValid_example : IsValid tasks ReadyQueue.new
new-IsValid_example = new-IsValid tasks

push_task_refines_example : Pushes tasks 5 one_ready
push_task_refines_example = push_task_refines tasks 5 one_ready (omega arith) one_ready-IsValid

pop_task_refines_example :
    ((waiting two_ready ≡ []) × (ReadyQueue.pop two_ready ≡ some (none, two_ready)))
    ⊎ Pops tasks two_ready (ReadyQueue.pop two_ready)
pop_task_refines_example = pop_task_refines tasks two_ready two_ready-IsValid

highest_priority_lem_example :
    (waiting two_ready ≡ [])
      × (ReadyQueue.is_empty two_ready ≡ true)
      × (ReadyQueue.get_highest_priority two_ready ≡ idle_prio)
    ⊎ ((r : ℕ) × (xs : List ℕ) × (waiting two_ready ≡ r ∷ xs)
        × (ReadyQueue.is_empty two_ready ≢ true)
        × (ReadyQueue.get_highest_priority two_ready ≡ (tasks r).prio))
highest_priority_lem_example = highest_priority_lem tasks two_ready two_ready-IsValid
