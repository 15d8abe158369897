-- ===== src/Continuation.antt =====
-- src/arch/aarch64/kernel/continuations.rs: continuations, which have a stack and an exception slot
-- of their own and are resumed by the idle loop (the drain) of their core. This file has the data
-- and the statics; each child module has a part of the operations. A pointer to a record of the
-- pool is its index, with `none` for null; other addresses are numbers with 0 for null. Memory
-- that holds saved contexts is a function from the address of a `State` to it. A result `none` is a
-- panic. The processor's registers are part of the state, and its cycle counter is a sequence of
-- readings.
pub mod Pool
pub mod Switch
pub mod Parking
pub mod Quantum
pub mod Drain
pub mod FutexTable
pub mod RoundTrip
pub mod Escape
pub mod Preempted
pub mod Wakes
pub mod Pairing
pub mod Lifecycles
mod Tests
use hermit_kernel.Base.{ℕ, ◌+◌, Bool, Option}
use hermit_kernel.Base.Tests.{◌==◌, if◌then◌else◌}

abbrev pub max_continuations : ℕ
max_continuations = 128

abbrev pub cont_stack_size : ℕ
cont_stack_size = 0x8000

abbrev pub cont_guard : ℕ
cont_guard = 0x1000

abbrev pub cont_slot_size : ℕ
cont_slot_size = 0x10000

abbrev pub cont_slot_guard : ℕ
cont_slot_guard = 0x1000

abbrev pub cont_tls_magic : ℕ
cont_tls_magic = 0xc0dec7e7

abbrev pub state_size : ℕ
state_size = 288

abbrev pub quantum_cycles : ℕ
quantum_cycles = 8000000

pub data Lifecycle : Type 0 where
  c_free c_ready c_running c_parked c_escaped : Lifecycle

-- `State`: the saved context.
pub record State : Type 0 where
  pub spsel : ℕ
  pub elr_el1 : ℕ
  pub spsr_el1 : ℕ
  pub sp_el0 : ℕ
  pub tpidr_el0 : ℕ
  pub x : ℕ → ℕ

pub record Cont : Type 0 where
  pub state_frame : ℕ
  pub slot_top : ℕ
  pub tls : ℕ
  pub state : Lifecycle
  pub pending_wake : Bool
  pub entry : ℕ
  pub resumer_frame : ℕ
  pub resumer_slot : ℕ
  pub escape_frame : ℕ
  pub quantum_armed : Bool
  pub user_func : ℕ
  pub user_arg : ℕ
  pub owned_fd : Option ℕ

pub record ContSwitch : Type 0 where
  pub save : ℕ
  pub target : ℕ
  pub target_slot : ℕ
  pub cur : ℕ

-- The registers of the processor that a switch saves and restores. The floating-point and vector
-- registers are 0 to 31, FPSR is 32 and FPCR is 33.
pub record Cpu : Type 0 where
  pub pc : ℕ
  pub pstate : ℕ
  pub stack_el0 : ℕ
  pub stack_el1 : ℕ
  pub tpidr : ℕ
  pub gpr : ℕ → ℕ
  pub fp : ℕ → ℕ

-- The 32-bit counters.
pub record Counters : Type 0 where
  pub arms : ℕ
  pub disarms : ℕ
  pub escapes : ℕ
  pub parks : ℕ
  pub resumes : ℕ
  pub fd_refs : ℕ
  pub fd_dropped : ℕ
  pub futex_waiters : ℕ

-- What the rest of the kernel gives: the linker's sections, the address of each record's escape
-- buffer, the entry point of the quantum harness, and what the core's locals hold.
pub record Platform : Type 0 where
  pub core : ℕ
  pub cont_stacks : ℕ
  pub cont_slots : ℕ
  pub escape_buf : ℕ → ℕ
  pub quantum_harness_entry : ℕ
  pub dummy_save : ℕ
  pub exception_sp : ℕ
  pub last_stack_pointer : ℕ
  pub boot_ready : Bool

-- The statics, the one-shot timer, the core's scratch slot and its abort flag.
pub record Conts : Type 0 where
  pub cont_pool : ℕ → Cont
  pub cont_next : ℕ
  pub cont_free_top : ℕ
  pub cont_free_buf : ℕ → ℕ
  pub current_cont : Option ℕ
  pub cont_pending : Option ℕ
  pub fp_save_acquired : Bool
  pub fp_save_buf : ℕ → ℕ
  pub teardown_happened : Bool
  pub sgi_pended : Bool
  pub s6_cont : Option ℕ
  pub counters : Counters
  pub quantum_cycles_last : ℕ
  pub readings : ℕ → ℕ
  pub reads : ℕ
  pub timer : Option ℕ
  pub scratch_slot : ℕ
  pub abort_zone : Bool
  pub frames : ℕ → State
  pub cpu : Cpu
  pub cont_switch : ContSwitch
  pub futex_addrs : ℕ → ℕ
  pub futex_conts : ℕ → Option ℕ

-- A write at an index or an address.
abbrev pub write {ℓ} : {A : Type ℓ} → (ℕ → A) → ℕ → A → ℕ → A
write f i v j = if j == i then v else f j

abbrev pub with_cont : Conts → ℕ → Cont → Conts
with_cont st i c = record st { cont_pool = write st.cont_pool i c }

-- What is loaded from the record at a pointer.
abbrev pub state_of : Conts → ℕ → Lifecycle
state_of st i = (st.cont_pool i).state
