-- ===== src/Continuation/Escape.antt =====
-- A continuation that loses the processor, and what resumes it:
-- src/arch/aarch64/kernel/continuations.rs, continuation_self_escape, quantum_escape, coop_wake and
-- drain_ready.
use hermit_kernel.Base.{ℕ, ◌-◌, ◌≡◌, refl, ap, ◌∙◌, true, false, none, some}
use hermit_kernel.Base.Tests.{if◌then◌else◌}
use hermit_kernel.Continuation.{Conts, Cont, ContSwitch, State, c_escaped, state_size, state_of}
use hermit_kernel.Continuation.Pool.{inc, points}
use hermit_kernel.Continuation.Switch.{switch, saved_context}
use hermit_kernel.Continuation.Switch.Effects.{write_self}
use hermit_kernel.Continuation.Quantum.{
  save_fp, mark_escaped, capture, count_escape, escape_at, quantum_escape, self_escape_at,
  continuation_self_escape,
}

-- A continuation lost the processor in a context, with the FP registers in the save area.
pub record HasEscaped (st st' : Conts) (i : ℕ) (context : State) : Type 0 where
  pub state : state_of st' i ≡ c_escaped
  pub frame : (st'.cont_pool i).escape_frame ≡ (st.cont_pool i).escape_frame
  pub slot : (st'.cont_pool i).slot_top ≡ (st.cont_pool i).slot_top
  pub saved : st'.frames (st.cont_pool i).escape_frame ≡ context
  pub fp : st'.fp_save_buf ≡ st.cpu.fp
  pub acquired : st'.fp_save_acquired ≡ true
  pub pending : st'.cont_pending ≡ some i

save_fp_lem :
    (st : Conts)
    → st.fp_save_acquired ≡ false
    → save_fp st ≡ some (record st { fp_save_acquired = true; fp_save_buf = st.cpu.fp })
unfolding save_fp
save_fp_lem st e = rw e refl

-- The state in which a continuation that preempts itself gives up the processor.
unfoldable pub self_escaping : Conts → ℕ → Conts
self_escaping st i =
    let st' : Conts = record st { fp_save_acquired = true; fp_save_buf = st.cpu.fp } in
    record (mark_escaped st' i) {
      counters =
          if points st.s6_cont i
          then record st.counters { escapes = inc st.counters.escapes }
          else st.counters;
      current_cont = none;
      scratch_slot = 0;
    }

pub escape_switch : Cont → ContSwitch
escape_switch c = record {
  save = c.escape_frame;
  target = c.resumer_frame;
  target_slot = c.resumer_slot;
  cur = c.resumer_frame;
}

pub self_escape_by :
    (st : Conts) (i : ℕ)
    → (st.cont_pool i).quantum_armed ≡ true
    → st.fp_save_acquired ≡ false
    → self_escape_at st (some i)
      ≡ some (true, switch (self_escaping st i) (escape_switch (st.cont_pool i)))
unfolding self_escape_at self_escaping escape_switch
self_escape_by st i a f = rw (a, f) refl

pub self_escape-HasEscaped :
    (st : Conts) (i : ℕ)
    → st.current_cont ≡ some i
    → (st.cont_pool i).quantum_armed ≡ true
    → st.fp_save_acquired ≡ false
    → (st' : Conts) × (continuation_self_escape st ≡ some (true, st'))
      × HasEscaped st st' i (saved_context st.cpu)
unfolding continuation_self_escape self_escaping escape_switch mark_escaped switch
self_escape-HasEscaped st i e a f =
    let own =
      write_self st.cont_pool i
        (record (st.cont_pool i) { quantum_armed = false; state = c_escaped }) in
    (
      switch (self_escaping st i) (escape_switch (st.cont_pool i)),
      ap (self_escape_at st) e ∙ self_escape_by st i a f,
      record {
        state = ap (λ (c : Cont). c.state) own;
        frame = ap (λ (c : Cont). c.escape_frame) own;
        slot = ap (λ (c : Cont). c.slot_top) own;
        saved = write_self st.frames (st.cont_pool i).escape_frame (saved_context st.cpu);
        fp = refl;
        acquired = refl;
        pending = refl;
      },
    )

-- The state after the interrupt of the quantum.
unfoldable pub escaping : Conts → ℕ → Conts
escaping st i =
    let st' : Conts = record (capture st (st.cont_pool i)) {
      fp_save_acquired = true;
      fp_save_buf = st.cpu.fp;
    } in
    record (mark_escaped st' i) { counters = count_escape st.counters }

pub escape_by :
    (st : Conts) (i : ℕ)
    → (st.cont_pool i).quantum_armed ≡ true
    → st.fp_save_acquired ≡ false
    → escape_at st (some i) ≡ some (true, escaping st i)
unfolding escape_at escaping
escape_by st i a f = rw (a, f) refl

pub quantum_escape-HasEscaped :
    (st : Conts) (i : ℕ)
    → st.current_cont ≡ some i
    → (st.cont_pool i).quantum_armed ≡ true
    → st.fp_save_acquired ≡ false
    → (st' : Conts) × (quantum_escape st ≡ some (true, st'))
      × HasEscaped st st' i (st.frames ((st.cont_pool i).slot_top - state_size))
unfolding quantum_escape escaping mark_escaped capture
quantum_escape-HasEscaped st i e a f =
    let own =
      write_self st.cont_pool i
        (record (st.cont_pool i) { quantum_armed = false; state = c_escaped }) in
    (
      escaping st i,
      ap (escape_at st) e ∙ escape_by st i a f,
      record {
        state = ap (λ (c : Cont). c.state) own;
        frame = ap (λ (c : Cont). c.escape_frame) own;
        slot = ap (λ (c : Cont). c.slot_top) own;
        saved = write_self st.frames (st.cont_pool i).escape_frame _;
        fp = refl;
        acquired = refl;
        pending = refl;
      },
    )
