-- ===== src/Continuation/Switch/Effects.antt =====
-- What a switch and the arming of a quantum leave as it is:
-- src/arch/aarch64/kernel/continuations.rs, cont_switch and arm_quantum_for_running.
use hermit_kernel.Base.{ℕ, ◌≡◌, ◌≢◌, inl, inr, refl, true, false, arith}
use hermit_kernel.Base.Tests.{Bool-cases, ==_refl}
use hermit_kernel.Continuation.{Conts, ContSwitch, write}
use hermit_kernel.Continuation.Pool.{points, arm_quantum_for_running, disarm_quantum}
use hermit_kernel.Continuation.Switch.{switch, restored, saved_context}

pub write_self {ℓ} : {A : Type ℓ} (f : ℕ → A) (i : ℕ) (v : A) → write f i v i ≡ v
write_self f i v = rw (==_refl i) refl

pub write_ne {ℓ} : {A : Type ℓ} (f : ℕ → A) (i j : ℕ) (v : A) → j ≢ i → write f i v j ≡ f j
write_ne f i j v h = ground arith

-- A switch to a context that it does not overwrite.
pub switch_cpu :
    (st : Conts) (to : ContSwitch)
    → to.save ≢ to.target
    → (switch st to).cpu ≡ restored st.cpu to.target_slot (st.frames to.target)
unfolding switch
switch_cpu st to h =
    rw (write_ne st.frames to.save to.target (saved_context st.cpu) (λ e. h (cc))) refl

pub switch_kept :
    (st : Conts) (to : ContSwitch)
    → ((switch st to).cont_pool ≡ st.cont_pool)
      × ((switch st to).current_cont ≡ st.current_cont)
      × ((switch st to).cont_pending ≡ st.cont_pending)
      × ((switch st to).fp_save_acquired ≡ st.fp_save_acquired)
      × ((switch st to).fp_save_buf ≡ st.fp_save_buf)
unfolding switch
switch_kept st to = (refl, refl, refl, refl, refl)

-- What stays when the quantum of a record is armed.
pub record Arms (st st' : Conts) (i : ℕ) : Type 0 where
  pub frames : st'.frames ≡ st.frames
  pub cpu : st'.cpu ≡ st.cpu
  pub pool : st'.cont_pool ≡ write st.cont_pool i (record (st.cont_pool i) { quantum_armed = true })
  pub current : st'.current_cont ≡ st.current_cont
  pub pending : st'.cont_pending ≡ st.cont_pending
  pub fp_buf : st'.fp_save_buf ≡ st.fp_save_buf
  pub fp_acquired : st'.fp_save_acquired ≡ st.fp_save_acquired
  pub next : st'.cont_next ≡ st.cont_next
  pub top : st'.cont_free_top ≡ st.cont_free_top
  pub buf : st'.cont_free_buf ≡ st.cont_free_buf

pub arm_quantum_for_running-Arms : (st : Conts) (i : ℕ) → Arms st (arm_quantum_for_running st i) i
unfolding arm_quantum_for_running
arm_quantum_for_running-Arms st i = elim (Bool-cases (points st.s6_cont i)) [
  | inl e ↦ rw e (record {
    frames = refl;
    cpu = refl;
    pool = refl;
    current = refl;
    pending = refl;
    fp_buf = refl;
    fp_acquired = refl;
    next = refl;
    top = refl;
    buf = refl;
  })
  | inr e ↦ rw e (record {
    frames = refl;
    cpu = refl;
    pool = refl;
    current = refl;
    pending = refl;
    fp_buf = refl;
    fp_acquired = refl;
    next = refl;
    top = refl;
    buf = refl;
  })
]

-- What stays when the quantum of a record is disarmed.
pub record Disarms (st st' : Conts) (i : ℕ) : Type 0 where
  pub frames : st'.frames ≡ st.frames
  pub cpu : st'.cpu ≡ st.cpu
  pub pool :
      st'.cont_pool ≡ write st.cont_pool i (record (st.cont_pool i) { quantum_armed = false })
  pub pending : st'.cont_pending ≡ st.cont_pending
  pub parks : st'.counters.parks ≡ st.counters.parks
  pub resumes : st'.counters.resumes ≡ st.counters.resumes
  pub waiters : st'.counters.futex_waiters ≡ st.counters.futex_waiters
  pub addrs : st'.futex_addrs ≡ st.futex_addrs
  pub conts : st'.futex_conts ≡ st.futex_conts
  pub current : st'.current_cont ≡ st.current_cont
  pub next : st'.cont_next ≡ st.cont_next
  pub top : st'.cont_free_top ≡ st.cont_free_top
  pub buf : st'.cont_free_buf ≡ st.cont_free_buf

pub disarm_quantum-Disarms : (st : Conts) (i : ℕ) → Disarms st (disarm_quantum st i) i
unfolding disarm_quantum
disarm_quantum-Disarms st i = elim (Bool-cases (st.cont_pool i).quantum_armed) [
  | inl e ↦ elim (Bool-cases (points st.s6_cont i)) [
    | inl s ↦
        rw (e, s)
          (record {
            frames = refl;
            cpu = refl;
            pool = refl;
            pending = refl;
            parks = refl;
            resumes = refl;
            waiters = refl;
            addrs = refl;
            conts = refl;
            current = refl;
            next = refl;
            top = refl;
            buf = refl;
          })
    | inr s ↦
        rw (e, s)
          (record {
            frames = refl;
            cpu = refl;
            pool = refl;
            pending = refl;
            parks = refl;
            resumes = refl;
            waiters = refl;
            addrs = refl;
            conts = refl;
            current = refl;
            next = refl;
            top = refl;
            buf = refl;
          })
  ]
  | inr e ↦ rw e (record {
    frames = refl;
    cpu = refl;
    pool = refl;
    pending = refl;
    parks = refl;
    resumes = refl;
    waiters = refl;
    addrs = refl;
    conts = refl;
    current = refl;
    next = refl;
    top = refl;
    buf = refl;
  })
]
