-- ===== src/Continuation/Drain/Resume.antt =====
-- What runs when a continuation is resumed: src/arch/aarch64/kernel/continuations.rs, drain_ready.
use hermit_kernel.Base.{ℕ, ◌≡◌, ◌≢◌, refl, ap, ◌∙◌, true, false, Option, none, some}
use hermit_kernel.Base.Tests.{◌>>=◌, ==_refl}
use hermit_kernel.Continuation.{
  Conts, Cont, ContSwitch, Platform, Lifecycle, c_ready, c_running, c_escaped, state_of,
}
use hermit_kernel.Continuation.Pool.{arm_quantum_for_running, release_fp_save}
use hermit_kernel.Continuation.Switch.{switch, restored, resumer_frame_of}
use hermit_kernel.Continuation.Switch.Effects.{
  switch_cpu, switch_kept, arm_quantum_for_running-Arms,
}
use hermit_kernel.Continuation.Drain.{
  is_escaped, is_resumable, resolve_from, restore_fp, mark_running, target_of, switch_to, resume,
  resume_found, drain_resolve_ready, drain_ready,
}

-- A continuation runs: it is the current one, no other is pending, and its wake was consumed.
pub record IsRunning (st : Conts) (i : ℕ) : Type 0 where
  pub current : st.current_cont ≡ some i
  pub pending : st.cont_pending ≡ none
  pub running : state_of st i ≡ c_running
  pub armed : (st.cont_pool i).quantum_armed ≡ true
  pub no_wake : (st.cont_pool i).pending_wake ≡ false

-- The state in which `drain_ready` arms the quantum and restores the FP registers.
armed_state : Platform → Conts → ℕ → Conts
armed_state p st i = arm_quantum_for_running (mark_running p st i) i

armed_state-IsRunning : (p : Platform) (st : Conts) (i : ℕ) → IsRunning (armed_state p st i) i
unfolding armed_state mark_running
armed_state-IsRunning p st i =
    let a = arm_quantum_for_running-Arms (mark_running p st i) i in
    record {
      current = a.current;
      pending = a.pending;
      running = ap (λ (pool : ℕ → Cont). (pool i).state) a.pool ∙ rw (==_refl i) refl;
      armed = ap (λ (pool : ℕ → Cont). (pool i).quantum_armed) a.pool ∙ rw (==_refl i) refl;
      no_wake = ap (λ (pool : ℕ → Cont). (pool i).pending_wake) a.pool ∙ rw (==_refl i) refl;
    }

switch-IsRunning :
    (st : Conts) (to : ContSwitch) (i : ℕ) → IsRunning st i → IsRunning (switch st to) i
unfolding switch
switch-IsRunning st to i h = record {
  current = h.current;
  pending = h.pending;
  running = h.running;
  armed = h.armed;
  no_wake = h.no_wake;
}

-- A ready continuation is resumed from the context that was saved when it last gave up the
-- processor.
pub resume_ready :
    (p : Platform) (st : Conts) (i : ℕ)
    → state_of st i ≡ c_ready
    → resumer_frame_of p st.current_cont ≢ (st.cont_pool i).state_frame
    → (st' : Conts) × (resume p st i ≡ some st')
      × IsRunning st' i
      × (st'.cpu
          ≡ restored st.cpu (st.cont_pool i).slot_top (st.frames (st.cont_pool i).state_frame))
      × (st'.fp_save_acquired ≡ st.fp_save_acquired)
unfolding resume armed_state mark_running
resume_ready p st i e h =
    let a = arm_quantum_for_running-Arms (mark_running p st i) i in
    let t : ContSwitch = record {
      save = resumer_frame_of p st.current_cont;
      target = (st.cont_pool i).state_frame;
      target_slot = (st.cont_pool i).slot_top;
      cur = (st.cont_pool i).state_frame;
    } in
    (
      switch (armed_state p st i) t,
      rw (e, restore_fp) refl,
      switch-IsRunning (armed_state p st i) t i (armed_state-IsRunning p st i),
      switch_cpu (armed_state p st i) t h ∙ rw (a.cpu, a.frames) refl,
      (switch_kept (armed_state p st i) t).3 ∙ a.fp_acquired,
    )

resume_by :
    (p : Platform) (st : Conts) (i : ℕ) (st' : Conts)
    → restore_fp (is_escaped (state_of st i)) (armed_state p st i) ≡ some st'
    → resume p st i ≡ some (switch st' (switch_to p st i))
unfolding resume armed_state
resume_by p st i st' e = ap (λ (m : Option Conts). m >>= λ s. some (switch s (switch_to p st i))) e

restore_taken :
    (st : Conts)
    → st.fp_save_acquired ≡ true
    → restore_fp true st
      ≡ some (record st { cpu = record st.cpu { fp = st.fp_save_buf }; fp_save_acquired = false })
unfolding restore_fp release_fp_save
restore_taken st e = rw e refl

target_of_escaped : (c : Cont) → c.state ≡ c_escaped → target_of c ≡ c.escape_frame
target_of_escaped c e = rw e refl

loaded : Conts → Conts
loaded s = record s { cpu = record s.cpu { fp = s.fp_save_buf }; fp_save_acquired = false }

loaded-IsRunning : (s : Conts) (i : ℕ) → IsRunning s i → IsRunning (loaded s) i
unfolding loaded
loaded-IsRunning s i r = record {
  current = r.current;
  pending = r.pending;
  running = r.running;
  armed = r.armed;
  no_wake = r.no_wake;
}

-- A continuation that was preempted is resumed from the captured context with the FP registers of
-- the save area, which is released.
pub resume_escaped :
    (p : Platform) (st : Conts) (i : ℕ)
    → state_of st i ≡ c_escaped
    → st.fp_save_acquired ≡ true
    → resumer_frame_of p st.current_cont ≢ (st.cont_pool i).escape_frame
    → (st' : Conts) × (resume p st i ≡ some st')
      × IsRunning st' i
      × (st'.cpu
          ≡ restored
              (record st.cpu { fp = st.fp_save_buf })
              (st.cont_pool i).slot_top
              (st.frames (st.cont_pool i).escape_frame))
      × (st'.fp_save_acquired ≡ false)
unfolding armed_state mark_running loaded
resume_escaped p st i e f h =
    let a = arm_quantum_for_running-Arms (mark_running p st i) i in
    let to : ContSwitch = switch_to p st i in
    let s : Conts = armed_state p st i in
    let at = target_of_escaped (st.cont_pool i) e in
    (
      switch (loaded s) to,
      resume_by p st i (loaded s) (
          ap (λ (l : Lifecycle). restore_fp (is_escaped l) s) e
          ∙ restore_taken s (a.fp_acquired ∙ f)),
      switch-IsRunning (loaded s) to i (loaded-IsRunning s i (armed_state-IsRunning p st i)),
      switch_cpu (loaded s) to (λ q. h (q ∙ at)) ∙ rw (at, a.cpu, a.frames, a.fp_buf) refl,
      (switch_kept (loaded s) to).3,
    )

-- The drain resumes the pending continuation if that can be resumed.
pub drain_ready_pending :
    (p : Platform) (st : Conts) (i : ℕ)
    → st.cont_pending ≡ some i
    → is_resumable (state_of st i) ≡ true
    → drain_ready p st ≡ resume p st i
unfolding drain_ready drain_resolve_ready resume_found
drain_ready_pending p st i e t = rw (e, resolve_from, t) refl
