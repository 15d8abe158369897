-- ===== src/Task/Types.antt =====
-- src/scheduler/task/mod.rs and src/scheduler/supervisor.rs: the data of a task.
use hermit_kernel.Base.{ℕ, Bool, Option}

pub data TaskStatus : Type 0 where
  invalid ready running blocked finished idle : TaskStatus

-- Where the saved registers of a task are.
pub data FrameLocation : Type 0 where
  in_slot being_evicted evicted : FrameLocation

pub data EntryPointId : Type 0 where
  idle app_task : EntryPointId

-- Identifiers and priorities are the numbers that `TaskId` and `Priority` wrap.
pub record TaskHandle : Type 0 where
  pub id : ℕ
  pub priority : ℕ

-- The fields that the scheduler computes with.
pub record Task : Type 0 where
  pub id : ℕ
  pub status : TaskStatus
  pub prio : ℕ
  pub last_stack_pointer : ℕ
  pub core_id : ℕ
  pub frame_location : FrameLocation
  pub slot : Option ℕ
  pub wake_pending : Bool
  pub last_touch : ℕ
  pub entry : ℕ
  pub entry_arg : ℕ
  pub entry_point_id : EntryPointId

abbrev pub idle_prio : ℕ
idle_prio = 0

abbrev pub normal_prio : ℕ
normal_prio = 2

-- The tasks that `Rc<RefCell<Task>>` references share: a reference is a number.
abbrev pub Tasks : Type 0
Tasks = ℕ → Task
