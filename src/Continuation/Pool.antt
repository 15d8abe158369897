-- ===== src/Continuation/Pool.antt =====
-- The pool of continuations and the quantum of one that runs:
-- src/arch/aarch64/kernel/continuations.rs, alloc_cont, free_cont, arm_quantum_for_running,
-- disarm_quantum, acquire_fp_save and release_fp_save.
pub mod Bounds
pub mod Alloc
use hermit_kernel.Base.{
  ℕ, zero, suc, ◌+◌, ◌-◌, ◌%◌, ◌^◌, ◌≡◌, min, Bool, true, false, not, Option, none, some,
}
use hermit_kernel.Base.Tests.{◌==◌, ltb, if◌then◌else◌, ◌>>=◌, ◌>>◌, assert}
use hermit_kernel.Continuation.{
  Conts, Cont, Counters, Lifecycle, c_free, c_ready, c_running, c_parked, c_escaped,
  max_continuations, quantum_cycles, write, with_cont, state_of,
}

-- `fetch_add(1)` and `fetch_sub(n)` of a 32-bit counter.
abbrev pub inc : ℕ → ℕ
inc n = (n + 1) % 2 ^ 32

abbrev pub dec : ℕ → ℕ → ℕ
dec n k = (n + 2 ^ 32 - k) % 2 ^ 32

abbrev pub is_free : Lifecycle → Bool
is_free c_free = true
is_free _ = false

-- Whether a pointer to a record is that in a static.
abbrev pub points : Option ℕ → ℕ → Bool
points none i = false
points (some j) i = j == i

-- An index for a new record: the last that was given back, or the next one.
take_index : Conts → Option (ℕ × Conts)
take_index st =
    if ltb 0 st.cont_free_top
    then some (
      st.cont_free_buf (st.cont_free_top - 1),
      record st { cont_free_top = st.cont_free_top - 1 },
    )
    else if ltb st.cont_next max_continuations
    then some (st.cont_next, record st { cont_next = st.cont_next + 1 })
    else none

unfoldable pub alloc_cont : Conts → Option (ℕ × Conts)
unfolding take_index
alloc_cont st = do (i, st') ← take_index st; assert (is_free (state_of st' i)); some (i, st')

-- `read_counter`, and the cycles between two readings.
abbrev pub read_counter : Conts → ℕ
read_counter st = st.readings st.reads

abbrev pub measured : Conts → ℕ
measured st = (st.readings (st.reads + 1) + 2 ^ 64 - st.readings st.reads) % 2 ^ 64

abbrev pub saturating_add : ℕ → ℕ → ℕ
saturating_add a b = min (a + b) (2 ^ 64 - 1)

unfoldable pub arm_quantum_for_running : Conts → ℕ → Conts
arm_quantum_for_running st i =
    let st' : Conts = record st {
      cont_pool = write st.cont_pool i (record (st.cont_pool i) { quantum_armed = true });
      timer = some (saturating_add (read_counter st) quantum_cycles);
      reads = st.reads + 2;
    } in
    if points st.s6_cont i
    then record st' {
      counters = record st.counters { arms = inc st.counters.arms };
      quantum_cycles_last = measured st;
    }
    else st'

unfoldable pub disarm_quantum : Conts → ℕ → Conts
disarm_quantum st i =
    let st' : Conts = with_cont st i (record (st.cont_pool i) { quantum_armed = false }) in
    if (st.cont_pool i).quantum_armed
    then record st' {
      timer = none;
      reads = st.reads + 2;
      quantum_cycles_last = measured st;
      counters =
          if points st.s6_cont i
          then record st.counters { disarms = inc st.counters.disarms }
          else st.counters;
    }
    else st'

-- The pointers and slots that a freed record loses.
abbrev pub freed : Cont → Cont
freed c = record c {
  state = c_free;
  state_frame = 0;
  escape_frame = 0;
  resumer_frame = 0;
  slot_top = 0;
  resumer_slot = 0;
}

unfoldable pub free_cont : Conts → ℕ → Option Conts
unfolding disarm_quantum
free_cont st i = do
  assert (ltb st.cont_free_top max_continuations)
  let st' : Conts =
      disarm_quantum
        (record st {
          cont_free_buf = write st.cont_free_buf st.cont_free_top i;
          cont_free_top = st.cont_free_top + 1;
        })
        i
  some (with_cont st' i (freed (st'.cont_pool i)))

unfoldable pub acquire_fp_save : Conts → Option Conts
acquire_fp_save st = do
  assert (not st.fp_save_acquired)
  some (record st { fp_save_acquired = true })

unfoldable pub release_fp_save : Conts → Option Conts
release_fp_save st = do assert st.fp_save_acquired; some (record st { fp_save_acquired = false })
