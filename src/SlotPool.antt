-- ===== src/SlotPool.antt =====
-- src/arch/aarch64/kernel/slot_pool.rs: the slots of each core for the saved registers of tasks,
-- with src/config.rs. The state is the owners of the slots and the memory, of which each address
-- that is a multiple of 8 holds a word; the current core and the address where the linker puts the
-- slots are arguments. `none` as a result is a panic. The atomic operations of one call stand for
-- themselves: a core uses its own slots only.
pub mod Frames
pub mod Acquire
pub mod Evict
mod Tests
use hermit_kernel.Base.{
  ℕ, zero, suc, ◌+◌, ◌-◌, ◌*◌, ◌^◌, Bool, true, false, ◌&&◌, not, Option, none, some, List, [], ◌∷◌,
}
use hermit_kernel.Base.Tests.{◌==◌, ltb, if◌then◌else◌, ◌>>=◌, ◌>>◌, assert}
use hermit_kernel.Base.Lists.{set, get_elem?}
use hermit_kernel.Base.Int.{ℤ, pos, negsuc}
use hermit_kernel.Task.Types.{Task, FrameLocation}

-- The constants of src/config.rs.
abbrev pub state_size : ℕ
state_size = 288

abbrev pub exception_slot_size : ℕ
exception_slot_size = 65536

abbrev pub exception_slot_guard : ℕ
exception_slot_guard = 4096

abbrev pub slots_per_core : ℕ
slots_per_core = 3

abbrev pub slot_stride : ℕ
slot_stride = exception_slot_size + exception_slot_guard

-- The top of slot `i` of a core.
abbrev pub slot_top : ℕ → ℕ → ℕ → ℕ
slot_top base core i =
    base + core * slots_per_core * slot_stride + i * slot_stride + exception_slot_size

abbrev pub Memory : Type 0
Memory = ℕ → ℕ

-- The owners of the slots: for each core, for each slot -1 if it is free, or the number of a task.
pub record Slots : Type 0 where
  pub owners : List (List ℤ)
  pub memory : Memory

abbrev pub is_free : ℤ → Bool
is_free (pos n) = false
is_free (negsuc zero) = true
is_free (negsuc (suc n)) = false

-- The loop of `acquire` from slot `i` on: the slot that it claims, or -1.
pub acquire_from : ℕ → List ℤ → ℤ × List ℤ
acquire_from i [] = (negsuc 0, [])
acquire_from i (owner ∷ owners) =
    let rest = acquire_from (i + 1) owners in
    if is_free owner then (pos i, pos (2 ^ 31 - 1) ∷ owners) else (rest.0, owner ∷ rest.1)

pub acquire : List ℤ → ℤ × List ℤ
unfolding acquire_from
acquire owners = acquire_from 0 owners

abbrev pub release : ℕ → List ℤ → List ℤ
release i owners = set owners i (negsuc 0)

abbrev pub set_owner : ℕ → ℤ → List ℤ → List ℤ
set_owner i owner owners = set owners i owner

abbrev pub owners_for_core : Slots → ℕ → Option (List ℤ)
owners_for_core st core = get_elem? st.owners core

abbrev pub with_owners : Slots → ℕ → List ℤ → Slots
with_owners st core os = record st { owners = set st.owners core os }

abbrev pub store : Memory → ℕ → ℕ → Memory
store m a v = λ b. if b == a then v else m b

-- The loop that copies the words of a frame, for `n` words from word `w` on.
pub copy_from : ℕ → ℕ → ℕ → ℕ → Memory → Memory
copy_from zero w src dst m = m
copy_from (suc n) w src dst m =
    copy_from n (w + 1) src dst (store m (dst + 8 * w) (m (src + 8 * w)))

pub copy_frame : ℕ → ℕ → Memory → Memory
unfolding copy_from
copy_frame src dst m = copy_from 36 0 src dst m

abbrev pub frame_base : ℕ → ℕ → ℕ → ℕ
frame_base base core i = slot_top base core i - state_size

-- The task with its frame in slot `i`.
abbrev pub in_slot_of : ℕ → ℕ → ℕ → Task → Task
in_slot_of base core i task = record task {
  last_stack_pointer = frame_base base core i;
  frame_location = FrameLocation.in_slot;
  slot = some i;
  wake_pending = false;
}

-- The claimed slot gets the frame and its owner.
abbrev pub fill : ℕ → ℕ → Slots → Task → ℤ × List ℤ → Bool × (Slots × Task)
fill base core st task (negsuc n, os) = (false, (st, task))
fill base core st task (pos i, os) = (
  true,
  (
    record {
      owners = set st.owners core (set_owner i (pos task.id) os);
      memory = copy_frame task.last_stack_pointer (frame_base base core i) st.memory;
    },
    in_slot_of base core i task,
  ),
)

-- The result is false if no slot is free.
pub dispatch_acquire_slot : ℕ → ℕ → Slots → Task → Option (Bool × (Slots × Task))
unfolding acquire copy_frame
dispatch_acquire_slot base core st task = do
  owners ← owners_for_core st core
  some (fill base core st task (acquire owners))

abbrev pub is_in_slot : FrameLocation → Bool
is_in_slot FrameLocation.in_slot = true
is_in_slot _ = false

abbrev pub is_evicted : FrameLocation → Bool
is_evicted FrameLocation.evicted = true
is_evicted _ = false

abbrev pub is_some : Option ℕ → Bool
is_some none = false
is_some (some i) = true

abbrev pub released : ℕ → Slots → Task → Option ℕ → Option Slots
released core st task none = some st
released core st task (some i) = do
  assert (ltb i slots_per_core)
  assert (is_in_slot task.frame_location)
  owners ← owners_for_core st core
  some (with_owners st core (release i owners))

pub release_slot : ℕ → Slots → Task → Option Slots
release_slot core st task = released core st task task.slot

-- The first part of the result is whether the task is to be woken.
pub evict_victim : ℕ → ℕ → Slots → Task → ℕ → Option (Bool × (Slots × Task))
unfolding copy_frame
evict_victim base core st victim slot_idx = do
  assert (is_in_slot victim.frame_location)
  assert (is_some victim.slot)
  let memory' = copy_frame (frame_base base core slot_idx) victim.last_stack_pointer st.memory
  owners ← owners_for_core st core
  some (
    victim.wake_pending,
    (
      record { owners = set st.owners core (release slot_idx owners); memory = memory' },
      record victim { frame_location = FrameLocation.evicted; slot = none; wake_pending = false },
    ),
  )

pub resume_from_evicted : ℕ → ℕ → Slots → Task → Option (Bool × (Slots × Task))
unfolding acquire copy_frame
resume_from_evicted base core st task = do
  assert (is_evicted task.frame_location)
  owners ← owners_for_core st core
  some (fill base core st task (acquire owners))
