-- ===== src/Continuation/Switch.antt =====
-- Frames, the switch between two contexts and the start of a continuation:
-- src/arch/aarch64/kernel/continuations.rs, cont_stack_top, cont_slot_top, build_frame,
-- spawn_continuation and cont_switch.
pub mod Effects
pub mod Layout
use hermit_kernel.Base.{
  ℕ, zero, suc, ◌+◌, ◌-◌, ◌*◌, ◌%◌, ◌^◌, ◌≡◌, Bool, true, false, Option, none, some, bit_or,
}
use hermit_kernel.Base.Tests.{◌==◌, ltb, if◌then◌else◌, ◌>>=◌, ◌>>◌, assert}
use hermit_kernel.Base.Int.{ℤ, pos, negsuc}
use hermit_kernel.Continuation.{
  Conts, Cont, Counters, Platform, State, Cpu, ContSwitch, Lifecycle, c_ready, max_continuations,
  cont_stack_size, cont_guard, cont_slot_size, cont_slot_guard, cont_tls_magic, state_size, write,
  with_cont,
}
use hermit_kernel.Continuation.Pool.{inc, alloc_cont, arm_quantum_for_running}

unfoldable pub cont_stack_top : Platform → ℕ → ℕ
cont_stack_top p i =
    p.cont_stacks
    + p.core * (max_continuations * (cont_stack_size + cont_guard))
    + i * (cont_stack_size + cont_guard)
    + cont_stack_size

unfoldable pub cont_slot_top : Platform → ℕ → ℕ
cont_slot_top p i =
    p.cont_slots
    + p.core * (max_continuations * (cont_slot_size + cont_slot_guard))
    + i * (cont_slot_size + cont_slot_guard)
    + cont_slot_size

-- The register whose value `cont_switch` saves as register n. It pushes x9 to x16 in pairs and pops
-- the last pair first, but stores the pairs in the order of the registers.
unfoldable pub saved_from : ℕ → ℕ
saved_from n =
    if n == 9
    then 15
    else if n == 10
    then 16
    else if n == 11
    then 13
    else if n == 12
    then 14
    else if n == 13
    then 11
    else if n == 14
    then 12
    else if n == 15
    then 9
    else if n == 16
    then 10
    else n

-- The context that `cont_switch` saves: it resumes where the link register points, with the
-- stack that is in use.
unfoldable pub saved_context : Cpu → State
unfolding saved_from
saved_context cpu = record {
  spsel = cpu.pstate % 2;
  elr_el1 = cpu.gpr 30;
  spsr_el1 = bit_or 0x3c4 (cpu.pstate % 2);
  sp_el0 = if cpu.pstate % 2 == 0 then cpu.stack_el0 else cpu.stack_el1;
  tpidr_el0 = cpu.tpidr;
  x = λ n. cpu.gpr (saved_from n);
}

-- The registers after the `eret` into a context.
unfoldable pub restored : Cpu → ℕ → State → Cpu
restored cpu slot s = record {
  pc = s.elr_el1;
  pstate = s.spsr_el1;
  stack_el0 = if s.spsel == 1 then cpu.stack_el0 else s.sp_el0;
  stack_el1 = if s.spsel == 1 then s.sp_el0 else slot;
  tpidr = s.tpidr_el0;
  gpr = s.x;
  fp = cpu.fp;
}

-- `cont_switch`, after its fields were set.
unfoldable pub switch : Conts → ContSwitch → Conts
unfolding saved_context restored
switch st to =
    let saved : (ℕ → State) = write st.frames to.save (saved_context st.cpu) in
    record st {
      frames = saved;
      cont_switch = record to { cur = to.target };
      scratch_slot = to.target_slot;
      cpu = restored st.cpu to.target_slot (saved to.target);
    }

-- The frame that a new continuation starts from.
unfoldable pub first_frame : Platform → ℕ → Cont → State
unfolding cont_stack_top
first_frame p i c = record {
  spsel = 0;
  elr_el1 = c.entry;
  spsr_el1 = 0x3c4;
  sp_el0 = cont_stack_top p i - state_size - 16;
  tpidr_el0 = c.tls;
  x = λ _. 0;
}

unfoldable pub build_frame : Platform → Conts → ℕ → Conts
unfolding cont_stack_top cont_slot_top first_frame
build_frame p st i =
    let frame : ℕ = cont_stack_top p i - state_size in
    record st {
      cont_pool =
          write st.cont_pool i
            (record (st.cont_pool i) { state_frame = frame; slot_top = cont_slot_top p i });
      frames = write st.frames frame (first_frame p i (st.cont_pool i));
    }

-- Where the context that resumes a continuation is saved, and its slot.
abbrev pub resumer_frame_of : Platform → Option ℕ → ℕ
resumer_frame_of p none = p.exception_sp - state_size
resumer_frame_of p (some _) = p.last_stack_pointer

abbrev pub resumer_slot_of : Platform → ℕ → Option ℕ → ℕ
resumer_slot_of p slot none = p.exception_sp
resumer_slot_of p slot (some _) = slot

abbrev pub owned : ℤ → Option ℕ
owned (pos n) = some n
owned (negsuc _) = none

abbrev pub count_fd : Option ℕ → Counters → Counters
count_fd none k = k
count_fd (some _) k = record k { fd_refs = inc k.fd_refs }

-- The record of a continuation and the counters, before its frame is built.
unfoldable pub describe : Platform → Conts → ℕ → ℕ → ℕ → ℕ → ℤ → Conts
describe p st i entry func arg owned_fd = record st {
  cont_pool = write st.cont_pool i (record (st.cont_pool i) {
    entry = entry;
    tls = cont_tls_magic;
    user_func = func;
    user_arg = arg;
    owned_fd = owned owned_fd;
  });
  counters = count_fd (owned owned_fd) st.counters;
  s6_cont = if entry == p.quantum_harness_entry then some i else st.s6_cont;
}

-- The rest of `spawn_continuation`, for the record at an index.
unfoldable pub start : Platform → Conts → ℕ → Conts
unfolding arm_quantum_for_running
start p st i =
    let frame : ℕ = resumer_frame_of p st.current_cont in
    let slot : ℕ = resumer_slot_of p st.scratch_slot st.current_cont in
    let c : Cont = record (st.cont_pool i) {
      escape_frame = p.escape_buf i;
      state = c_ready;
      resumer_frame = frame;
      resumer_slot = slot;
    } in
    let running : Conts = record st { cont_pool = write st.cont_pool i c; current_cont = some i } in
    switch (arm_quantum_for_running running i) (record {
      save = frame;
      target = c.state_frame;
      target_slot = c.slot_top;
      cur = c.state_frame;
    })

unfoldable pub spawn_continuation : Platform → Conts → ℕ → ℕ → ℕ → ℤ → Option Conts
unfolding alloc_cont describe build_frame start
spawn_continuation p st entry func arg owned_fd = do
  assert p.boot_ready
  (i, st') ← alloc_cont st
  assert (ltb i max_continuations)
  some (start p (build_frame p (describe p st' i entry func arg owned_fd) i) i)
