-- ===== src/Continuation/RoundTrip.antt =====
-- A continuation that parks is resumed where it stopped:
-- src/arch/aarch64/kernel/continuations.rs, park_external, coop_wake and drain_ready.
use hermit_kernel.Base.{
  ℕ, ◌-◌, ◌%◌, ◌<◌, arith, ◌≡◌, ◌≢◌, refl, ap, ◌∙◌, sym, Bool, true, false, Option, none, some,
}
use mathlib.Core.Path.{subst}
use hermit_kernel.Base.Tests.{◌>>=◌}
use hermit_kernel.Continuation.{
  Conts, Cont, Cpu, Platform, c_ready, c_parked, state_size, write, with_cont, state_of,
}
use hermit_kernel.Continuation.Pool.{disarm_quantum}
use hermit_kernel.Continuation.Switch.{
  switch, restored, saved_context, saved_from, resumer_frame_of,
}
use hermit_kernel.Continuation.Switch.Effects.{write_self, write_ne, disarm_quantum-Disarms}
use hermit_kernel.Continuation.Parking.{
  parked, leave, park_unless_woken, count_park, park_external, wake_at, coop_wake,
}
use hermit_kernel.Continuation.Drain.{is_resumable, drain_ready}
use hermit_kernel.Continuation.Drain.Resume.{IsRunning, resume_ready, drain_ready_pending}

-- A continuation is parked with the context of the processor at that time.
pub record HasParked (st st' : Conts) (i : ℕ) : Type 0 where
  pub state : state_of st' i ≡ c_parked
  pub frame : (st'.cont_pool i).state_frame ≡ (st.cont_pool i).state_frame
  pub slot : (st'.cont_pool i).slot_top ≡ (st.cont_pool i).slot_top
  pub saved : st'.frames (st.cont_pool i).state_frame ≡ saved_context st.cpu
  pub pending : st'.cont_pending ≡ some i
  pub others : (j : ℕ) → j ≢ i → st'.cont_pool j ≡ st.cont_pool j

-- The record of a continuation whose quantum was disarmed.
pub disarmed :
    (st : Conts) (i : ℕ)
    → (disarm_quantum st i).cont_pool i ≡ record (st.cont_pool i) { quantum_armed = false }
disarmed st i =
    ap (λ (pool : ℕ → Cont). pool i) (disarm_quantum-Disarms st i).pool
    ∙ write_self st.cont_pool i (record (st.cont_pool i) { quantum_armed = false })

-- The state in which a park gives up the processor.
marked : Conts → Bool → ℕ → Conts
marked d b i = count_park b i (with_cont d i (record (d.cont_pool i) { state = c_parked }))

unwoken :
    (mark : Conts → Conts) (st : Conts) (i : ℕ)
    → (st.cont_pool i).pending_wake ≡ false
    → park_unless_woken mark st i ≡ (
      parked,
      leave (mark (with_cont st i (record (st.cont_pool i) { state = c_parked }))) (st.cont_pool i),
    )
unfolding park_unless_woken
unwoken mark st i w = rw w refl

park_by :
    (st : Conts) (b : Bool) (i : ℕ)
    → st.current_cont ≡ some i
    → (st.cont_pool i).pending_wake ≡ false
    → park_external st b
      ≡ some (parked, leave (marked (disarm_quantum st i) b i) ((disarm_quantum st i).cont_pool i))
unfolding park_external marked
park_by st b i e w =
    let d : Conts = disarm_quantum st i in
    ap
      (λ (o : Option ℕ).
        o >>= λ j. some (park_unless_woken (count_park b j) (disarm_quantum st j) j))
      e
    ∙ ap some (unwoken (count_park b i) d i (ap (λ (c : Cont). c.pending_wake) (disarmed st i) ∙ w))

-- A continuation without a wake that waits for it parks, and its context is saved.
pub park_external-HasParked :
    (st : Conts) (b : Bool) (i : ℕ)
    → st.current_cont ≡ some i
    → (st.cont_pool i).pending_wake ≡ false
    → (st' : Conts) × (park_external st b ≡ some (parked, st')) × HasParked st st' i
unfolding marked leave switch
park_external-HasParked st b i e w =
    let d : Conts = disarm_quantum st i in
    let f = disarm_quantum-Disarms st i in
    let c = disarmed st i in
    let own = write_self d.cont_pool i (record (d.cont_pool i) { state = c_parked }) in
    (
      leave (marked d b i) (d.cont_pool i),
      park_by st b i e w,
      record {
        state = ap (λ (c : Cont). c.state) own;
        frame =
            ap (λ (c : Cont). c.state_frame)
              (own ∙ ap (λ (c : Cont). record c { state = c_parked }) c);
        slot =
            ap (λ (c : Cont). c.slot_top)
              (own ∙ ap (λ (c : Cont). record c { state = c_parked }) c);
        saved =
            ap (λ (a : ℕ). write d.frames a (saved_context d.cpu) (st.cont_pool i).state_frame)
              (ap (λ (c : Cont). c.state_frame) c)
            ∙ write_self d.frames (st.cont_pool i).state_frame (saved_context d.cpu)
            ∙ ap saved_context f.cpu;
        pending = refl;
        others = λ j n.
            write_ne d.cont_pool i j (record (d.cont_pool i) { state = c_parked }) n
            ∙ ap (λ (pool : ℕ → Cont). pool j) f.pool
            ∙ write_ne st.cont_pool i j (record (st.cont_pool i) { quantum_armed = false }) n;
      },
    )

-- The registers x9 to x16 have each other's values: the pairs come back in reverse order.
pub record Reversed (before after : ℕ → ℕ) : Type 0 where
  pub x9 : after 9 ≡ before 15
  pub x10 : after 10 ≡ before 16
  pub x11 : after 11 ≡ before 13
  pub x12 : after 12 ≡ before 14
  pub x13 : after 13 ≡ before 11
  pub x14 : after 14 ≡ before 12
  pub x15 : after 15 ≡ before 9
  pub x16 : after 16 ≡ before 10

-- The context that runs is the one that was saved: it goes on behind the call, with the stack, the
-- TLS pointer and the general registers of that time, but for x9 to x16, whose pairs are reversed, on
-- the slot of the continuation, and with interrupts masked.
pub record GoesOn (before after : Cpu) (slot : ℕ) : Type 0 where
  pub pc : after.pc ≡ before.gpr 30
  pub stack : after.stack_el0 ≡ before.stack_el0
  pub own_slot : after.stack_el1 ≡ slot
  pub tls : after.tpidr ≡ before.tpidr
  pub low : (n : ℕ) → n < 9 → after.gpr n ≡ before.gpr n
  pub spilled : Reversed before.gpr after.gpr
  pub high : (n : ℕ) → 16 < n → after.gpr n ≡ before.gpr n
  pub masked : after.pstate ≡ 0x3c4

pub restored-GoesOn :
    (before cpu : Cpu) (slot : ℕ)
    → before.pstate % 2 ≡ 0
    → GoesOn before (restored cpu slot (saved_context before)) slot
unfolding restored saved_context saved_from
restored-GoesOn before cpu slot e = record {
  pc = refl;
  stack = rw e refl;
  own_slot = rw e refl;
  tls = refl;
  low = λ n h. ap before.gpr (let e : saved_from n ≡ n = ground arith in e);
  spilled = record {
    x9 = refl;
    x10 = refl;
    x11 = refl;
    x12 = refl;
    x13 = refl;
    x14 = refl;
    x15 = refl;
    x16 = refl;
  };
  high = λ n h. ap before.gpr (let e : saved_from n ≡ n = ground arith in e);
  masked = rw e refl;
}

-- The wake that the pending continuation gets.
pub coop_wake_pending :
    (st : Conts) (i : ℕ)
    → st.cont_pending ≡ some i
    → coop_wake st
      ≡ with_cont st i (record (st.cont_pool i) { pending_wake = true; state = c_ready })
unfolding coop_wake
coop_wake_pending st i e = ap (wake_at st) e

-- What the drain's work between a park and the wake does not touch.
pub record IsLeftAlone (st s : Conts) (i : ℕ) : Type 0 where
  pub record_kept : s.cont_pool i ≡ st.cont_pool i
  pub context_kept : s.frames (st.cont_pool i).state_frame ≡ st.frames (st.cont_pool i).state_frame
  pub pending_kept : s.cont_pending ≡ st.cont_pending
  pub current_kept : s.current_cont ≡ none

-- A wake of the pending continuation, and the drain after it.
pub drain_ready-coop_wake :
    (p : Platform) (s : Conts) (i : ℕ)
    → s.cont_pending ≡ some i
    → resumer_frame_of p s.current_cont ≢ (s.cont_pool i).state_frame
    → (s' : Conts) × (drain_ready p (coop_wake s) ≡ some s')
      × IsRunning s' i
      × (s'.cpu ≡ restored s.cpu (s.cont_pool i).slot_top (s.frames (s.cont_pool i).state_frame))
      × (s'.fp_save_acquired ≡ s.fp_save_acquired)
drain_ready-coop_wake p s i e h =
    let woken : Conts =
      with_cont s i (record (s.cont_pool i) { pending_wake = true; state = c_ready }) in
    let own =
      write_self s.cont_pool i (record (s.cont_pool i) { pending_wake = true; state = c_ready }) in
    let state = ap (λ (c : Cont). c.state) own in
    let frame = ap (λ (c : Cont). c.state_frame) own in
    let slot = ap (λ (c : Cont). c.slot_top) own in
    let (s', r, running, cpu, fp) = resume_ready p woken i state (λ q. h (q ∙ frame)) in
    (
      s',
      ap (drain_ready p) (coop_wake_pending s i e)
          ∙ drain_ready_pending p woken i e (ap is_resumable state)
          ∙ r,
      running,
      cpu ∙ ap (λ (c : Cont). restored s.cpu c.slot_top (s.frames c.state_frame)) own,
      fp,
    )

-- Round trip of a continuation that waits: it parks, and when later, in any state that left it, its
-- saved context and its place as the pending one alone, a wake comes and the drain runs, it
-- is current and running, its wake is consumed, and it goes on behind the call that parked it, with
-- the stack, the TLS pointer and the general registers that it had, but for x9 to x16, which have
-- each other's values.
pub drain_ready-park_external :
    (p : Platform) (st : Conts) (i : ℕ) (b : Bool)
    → st.current_cont ≡ some i
    → (st.cont_pool i).pending_wake ≡ false
    → st.cpu.pstate % 2 ≡ 0
    → p.exception_sp - state_size ≢ (st.cont_pool i).state_frame
    → (s : Conts) → ((st' : Conts) → park_external st b ≡ some (parked, st') → IsLeftAlone st' s i)
    → (st' s' : Conts) × (park_external st b ≡ some (parked, st'))
      × (drain_ready p (coop_wake s) ≡ some s')
      × IsRunning s' i
      × GoesOn st.cpu s'.cpu (st.cont_pool i).slot_top
drain_ready-park_external p st i b e w el0 h s alone =
    let (st', ep, hp) = park_external-HasParked st b i e w in
    let a = alone st' ep in
    let framed = ap (λ (c : Cont). c.state_frame) a.record_kept ∙ hp.frame in
    let slot = ap (λ (c : Cont). c.slot_top) a.record_kept ∙ hp.slot in
    let context =
      ap s.frames (ap (λ (c : Cont). c.state_frame) a.record_kept)
      ∙ a.context_kept
      ∙ ap st'.frames hp.frame
      ∙ hp.saved in
    let (s', r, running, cpu, _) =
      drain_ready-coop_wake p s i (a.pending_kept ∙ hp.pending)
        (λ q. h (sym (ap (resumer_frame_of p) a.current_kept) ∙ q ∙ framed)) in
    let same =
      cpu
      ∙ ap (λ (n : ℕ). restored s.cpu n (s.frames (s.cont_pool i).state_frame)) slot
      ∙ ap (restored s.cpu (st.cont_pool i).slot_top) context in
    (
      st',
      s',
      ep,
      r,
      running,
      subst (λ (c : Cpu). GoesOn st.cpu c (st.cont_pool i).slot_top) (sym same)
          (restored-GoesOn st.cpu s.cpu (st.cont_pool i).slot_top el0),
    )
