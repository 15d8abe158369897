-- ===== src/Continuation/Preempted.antt =====
-- What resumes a continuation that lost the processor:
-- src/arch/aarch64/kernel/continuations.rs, continuation_self_escape, quantum_escape, coop_wake and
-- drain_ready.
use hermit_kernel.Base.{ℕ, ◌-◌, ◌%◌, ◌≡◌, ◌≢◌, refl, ap, ◌∙◌, sym, true, false, none, some}
use mathlib.Core.Path.{subst}
use hermit_kernel.Continuation.{Conts, Cont, Cpu, State, Platform, c_escaped, state_size, state_of}
use hermit_kernel.Continuation.Switch.{restored, saved_context, resumer_frame_of}
use hermit_kernel.Continuation.Parking.{coop_wake}
use hermit_kernel.Continuation.Quantum.{
  save_fp, capture, escape_at, quantum_escape, self_escape_at, continuation_self_escape,
}
use hermit_kernel.Continuation.Drain.{is_resumable, drain_ready}
use hermit_kernel.Continuation.Drain.Resume.{IsRunning, resume_escaped, drain_ready_pending}
use hermit_kernel.Continuation.RoundTrip.{GoesOn, restored-GoesOn, drain_ready-coop_wake}
use hermit_kernel.Continuation.Escape.{
  HasEscaped, self_escape-HasEscaped, quantum_escape-HasEscaped,
}

-- What happens between an escape and the drain does not touch these.
pub record IsEscapeKept (st s : Conts) (i : ℕ) : Type 0 where
  pub record_kept : s.cont_pool i ≡ st.cont_pool i
  pub context_kept :
      s.frames (st.cont_pool i).escape_frame ≡ st.frames (st.cont_pool i).escape_frame
  pub fp_kept : s.fp_save_buf ≡ st.fp_save_buf
  pub acquired_kept : s.fp_save_acquired ≡ st.fp_save_acquired
  pub pending_kept : s.cont_pending ≡ st.cont_pending
  pub current_kept : s.current_cont ≡ none

-- An escape, and the drain in a state that left it alone.
resumes_escaped :
    (p : Platform) (st st' s : Conts) (i : ℕ) (context : State)
    → HasEscaped st st' i context
    → IsEscapeKept st' s i
    → p.exception_sp - state_size ≢ (st.cont_pool i).escape_frame
    → (s' : Conts) × (drain_ready p s ≡ some s')
      × IsRunning s' i
      × (s'.cpu ≡ restored (record s.cpu { fp = st.cpu.fp }) (st.cont_pool i).slot_top context)
      × (s'.fp_save_acquired ≡ false)
resumes_escaped p st st' s i context e a h =
    let framed = ap (λ (c : Cont). c.escape_frame) a.record_kept ∙ e.frame in
    let slot = ap (λ (c : Cont). c.slot_top) a.record_kept ∙ e.slot in
    let state = ap (λ (c : Cont). c.state) a.record_kept ∙ e.state in
    let saved =
      ap s.frames (ap (λ (c : Cont). c.escape_frame) a.record_kept)
      ∙ a.context_kept
      ∙ ap st'.frames e.frame
      ∙ e.saved in
    let (s', r, running, cpu, free) =
      resume_escaped p s i state (a.acquired_kept ∙ e.acquired)
        (λ q. h (sym (ap (resumer_frame_of p) a.current_kept) ∙ q ∙ framed)) in
    (
      s',
      drain_ready_pending p s i (a.pending_kept ∙ e.pending) (ap is_resumable state) ∙ r,
      running,
      cpu ∙ rw (slot, saved, a.fp_kept, e.fp) refl,
      free,
    )

-- Round trip of a continuation that gives up the processor at the end of its quantum: while the
-- save area is free, it is marked and its context is saved, and when the drain runs next, in any
-- state that left what was saved alone, the continuation is running again behind the call, with
-- the FP registers that it had and the general ones, but for x9 to x16, which have each other's
-- values, and the save area is free again.
pub drain_ready-self_escape :
    (p : Platform) (st : Conts) (i : ℕ)
    → st.current_cont ≡ some i
    → (st.cont_pool i).quantum_armed ≡ true
    → st.fp_save_acquired ≡ false
    → st.cpu.pstate % 2 ≡ 0
    → p.exception_sp - state_size ≢ (st.cont_pool i).escape_frame
    → (s : Conts)
    → ((st' : Conts) → continuation_self_escape st ≡ some (true, st') → IsEscapeKept st' s i)
    → (st' s' : Conts) × (continuation_self_escape st ≡ some (true, st'))
      × (drain_ready p s ≡ some s')
      × IsRunning s' i
      × GoesOn st.cpu s'.cpu (st.cont_pool i).slot_top
      × (s'.cpu.fp ≡ st.cpu.fp)
      × (s'.fp_save_acquired ≡ false)
unfolding restored
drain_ready-self_escape p st i e a f el0 h s alone =
    let (st', ep, escaped) = self_escape-HasEscaped st i e a f in
    let (s', r, running, cpu, free) =
      resumes_escaped p st st' s i (saved_context st.cpu) escaped (alone st' ep) h in
    (
      st',
      s',
      ep,
      r,
      running,
      subst (λ (c : Cpu). GoesOn st.cpu c (st.cont_pool i).slot_top) (sym cpu)
          (restored-GoesOn st.cpu (record s.cpu { fp = st.cpu.fp }) (st.cont_pool i).slot_top el0),
      ap (λ (c : Cpu). c.fp) cpu,
      free,
    )

-- Round trip of a continuation that the interrupt of its quantum stopped: the drain, in any state
-- that left what was saved alone, goes on in the context that the interrupt had saved in the
-- continuation's slot, with the FP registers of that time, and the save area is free again.
drain_ready-quantum_escape :
    (p : Platform) (st : Conts) (i : ℕ)
    → st.current_cont ≡ some i
    → (st.cont_pool i).quantum_armed ≡ true
    → st.fp_save_acquired ≡ false
    → p.exception_sp - state_size ≢ (st.cont_pool i).escape_frame
    → (s : Conts) → ((st' : Conts) → quantum_escape st ≡ some (true, st') → IsEscapeKept st' s i)
    → (st' s' : Conts) × (quantum_escape st ≡ some (true, st'))
      × (drain_ready p s ≡ some s')
      × IsRunning s' i
      × (s'.cpu
          ≡ restored
              (record s.cpu { fp = st.cpu.fp })
              (st.cont_pool i).slot_top
              (st.frames ((st.cont_pool i).slot_top - state_size)))
      × (s'.fp_save_acquired ≡ false)
drain_ready-quantum_escape p st i e a f h s alone =
    let (st', ep, escaped) = quantum_escape-HasEscaped st i e a f in
    let (s', r, running, cpu, free) =
      resumes_escaped p st st' s i (st.frames ((st.cont_pool i).slot_top - state_size)) escaped
        (alone st' ep) h in
    (st', s', ep, r, running, cpu, free)

-- A continuation that runs with an armed quantum cannot lose the processor while the save area is
-- taken: both escapes panic.
escapes_panic :
    (st : Conts) (i : ℕ)
    → IsRunning st i
    → st.fp_save_acquired ≡ true
    → (quantum_escape st ≡ none) × (continuation_self_escape st ≡ none)
unfolding quantum_escape continuation_self_escape escape_at self_escape_at capture save_fp
escapes_panic st i r f =
    (rw (r.current, escape_at, r.armed, f) refl, rw (r.current, self_escape_at, r.armed, f) refl)

-- A wake between an escape and the drain is fatal: if `coop_wake` finds the pending continuation
-- preempted, the drain resumes it from the context of its last park instead of the captured one
-- and does not free the FP save area, so that the end of its quantum panics.
pub coop_wake_escaped :
    (p : Platform) (s : Conts) (i : ℕ)
    → s.cont_pending ≡ some i
    → state_of s i ≡ c_escaped
    → s.fp_save_acquired ≡ true
    → resumer_frame_of p s.current_cont ≢ (s.cont_pool i).state_frame
    → (s' : Conts) × (drain_ready p (coop_wake s) ≡ some s')
      × IsRunning s' i
      × (s'.cpu ≡ restored s.cpu (s.cont_pool i).slot_top (s.frames (s.cont_pool i).state_frame))
      × (quantum_escape s' ≡ none)
      × (continuation_self_escape s' ≡ none)
coop_wake_escaped p s i e _ f h =
    let (s', r, running, cpu, fp) = drain_ready-coop_wake p s i e h in
    let (first, second) = escapes_panic s' i running (fp ∙ f) in
    (s', r, running, cpu, first, second)
