-- ===== src/Continuation/Drain.antt =====
-- The drain resumes continuations: src/arch/aarch64/kernel/continuations.rs, drain_resolve_ready,
-- has_pending_cont and drain_ready.
pub mod Resolve
pub mod Resume
use hermit_kernel.Base.{ℕ, zero, suc, Bool, true, false, Option, none, some}
use hermit_kernel.Base.Tests.{if◌then◌else◌, ◌>>=◌, ◌>>◌}
use hermit_kernel.Continuation.{
  Conts, Cont, ContSwitch, Platform, Cpu, Lifecycle, c_ready, c_running, c_escaped,
  max_continuations, write, with_cont, state_of,
}
use hermit_kernel.Continuation.Pool.{arm_quantum_for_running, release_fp_save}
use hermit_kernel.Continuation.Switch.{switch, resumer_frame_of, resumer_slot_of}

abbrev pub is_ready : Lifecycle → Bool
is_ready c_ready = true
is_ready _ = false

abbrev pub is_escaped : Lifecycle → Bool
is_escaped c_escaped = true
is_escaped _ = false

-- The test of `drain_resolve_ready`.
abbrev pub is_resumable : Lifecycle → Bool
is_resumable c_ready = true
is_resumable c_escaped = true
is_resumable _ = false

-- The scan of `n` records of the pool from `i` on.
unfoldable pub scan_pool : (Lifecycle → Bool) → Conts → ℕ → ℕ → Option ℕ
scan_pool test st zero i = none
scan_pool test st (suc n) i = if test (state_of st i) then some i else scan_pool test st n (suc i)

unfoldable pub resolve_from : Conts → Option ℕ → Option ℕ
unfolding scan_pool
resolve_from st none = scan_pool is_resumable st max_continuations 0
resolve_from st (some i) =
    if is_resumable (state_of st i) then some i else scan_pool is_resumable st max_continuations 0

unfoldable pub drain_resolve_ready : Conts → Option ℕ
unfolding resolve_from
drain_resolve_ready st = resolve_from st st.cont_pending

abbrev pub is_some : Option ℕ → Bool
is_some none = false
is_some (some _) = true

unfoldable pub has_pending_cont : Conts → Bool
unfolding scan_pool
has_pending_cont st = is_some (scan_pool is_ready st max_continuations 0)

-- A continuation that escaped gets its FP registers back.
unfoldable pub restore_fp : Bool → Conts → Option Conts
unfolding release_fp_save
restore_fp false st = some st
restore_fp true st = release_fp_save (record st { cpu = record st.cpu { fp = st.fp_save_buf } })

-- The record and the statics of a continuation that is about to run.
unfoldable pub mark_running : Platform → Conts → ℕ → Conts
mark_running p st i = record st {
  cont_pool = write st.cont_pool i (record (st.cont_pool i) {
    pending_wake = false;
    resumer_frame = resumer_frame_of p st.current_cont;
    resumer_slot = resumer_slot_of p st.scratch_slot st.current_cont;
    state = c_running;
  });
  cont_pending = none;
  current_cont = some i;
}

-- A continuation that was preempted goes on from the context that was captured then.
abbrev pub target_of : Cont → ℕ
target_of c = if is_escaped c.state then c.escape_frame else c.state_frame

abbrev pub switch_to : Platform → Conts → ℕ → ContSwitch
switch_to p st i = record {
  save = resumer_frame_of p st.current_cont;
  target = target_of (st.cont_pool i);
  target_slot = (st.cont_pool i).slot_top;
  cur = target_of (st.cont_pool i);
}

-- What `drain_ready` does with the continuation that it found.
unfoldable pub resume : Platform → Conts → ℕ → Option Conts
unfolding mark_running arm_quantum_for_running restore_fp switch
resume p st i = do
  st' ← restore_fp (is_escaped (state_of st i)) (arm_quantum_for_running (mark_running p st i) i)
  some (switch st' (switch_to p st i))

unfoldable pub resume_found : Platform → Conts → Option ℕ → Option Conts
unfolding resume
resume_found p st none = some st
resume_found p st (some i) = resume p st i

unfoldable pub drain_ready : Platform → Conts → Option Conts
unfolding drain_resolve_ready resume_found
drain_ready p st = resume_found p st (drain_resolve_ready st)
