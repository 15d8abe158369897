-- ===== src/SlotPool/Tests.antt =====
-- Slots at concrete inputs.
use hermit_kernel.Base.{ℕ, ◌+◌, ◌*◌, ◌≡◌, refl, inl, true, false, none, some, List, [], ◌∷◌, arith}
use hermit_kernel.Base.Int.{ℤ, pos, negsuc}
use hermit_kernel.Task.Types.{Task, TaskStatus, FrameLocation, EntryPointId}
use hermit_kernel.SlotPool.{
  Slots, is_evicted, frame_base, in_slot_of, dispatch_acquire_slot, evict_victim,
}
use hermit_kernel.SlotPool.Acquire.{Takes, dispatch_lem}
use hermit_kernel.SlotPool.Evict.{evicted_frame_lost}

abbrev slots_base : ℕ
slots_base = 1073741824

-- A task whose frame is on its own stack.
abbrev stack_task : Task
stack_task = record {
  id = 9;
  status = TaskStatus.ready;
  prio = 2;
  last_stack_pointer = 4096;
  core_id = 1;
  frame_location = FrameLocation.in_slot;
  slot = none;
  wake_pending = false;
  last_touch = 0;
  entry = 0;
  entry_arg = 0;
  entry_point_id = EntryPointId.app_task;
}

-- A task whose frame is in slot 2 of core 1.
abbrev slot_task : Task
slot_task = record stack_task {
  id = 7;
  status = TaskStatus.blocked;
  last_stack_pointer = frame_base slots_base 1 2;
  slot = some 2;
}

abbrev idle_core : List ℤ
idle_core = negsuc 0 ∷ negsuc 0 ∷ negsuc 0 ∷ []

abbrev mixed : List ℤ
mixed = pos 5 ∷ negsuc 0 ∷ pos 7 ∷ []

abbrev full : List ℤ
full = pos 5 ∷ pos 6 ∷ pos 7 ∷ []

abbrev slots : List ℤ → Slots
slots os = record { owners = idle_core ∷ os ∷ idle_core ∷ idle_core ∷ []; memory = λ a. a + 1 }

dispatch_lem_example :
    Takes slots_base 1
      (slots mixed)
      mixed
      stack_task
      1
      2
      8192
      3
      (dispatch_acquire_slot slots_base 1 (slots mixed) stack_task)
      (some 1)
dispatch_lem_example =
    dispatch_lem slots_base 1 (slots mixed) mixed stack_task 1 2 8192 3 refl (omega arith)
      (omega arith) (omega arith) (inl (omega arith)) (inl (omega arith)) refl

evicted_frame_lost_example :
    (st₁ : Slots) × (st₂ : Slots) × (victim' : Task) × (evict_victim slots_base 1
        (slots full)
        slot_task
        2
      ≡ some (false, (st₁, victim')))
    × (dispatch_acquire_slot slots_base 1 st₁ stack_task
        ≡ some (true, (st₂, in_slot_of slots_base 1 2 stack_task)))
    × (is_evicted victim'.frame_location ≡ true)
    × (st₂.memory (victim'.last_stack_pointer + 8 * 3)
        ≡ (slots full).memory (stack_task.last_stack_pointer + 8 * 3))
evicted_frame_lost_example =
    evicted_frame_lost slots_base 1 2 3 (slots full) full slot_task stack_task refl refl refl
      (omega arith) (omega arith) (omega arith) refl refl refl (inl (omega arith))
