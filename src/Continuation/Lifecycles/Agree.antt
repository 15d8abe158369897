-- ===== src/Continuation/Lifecycles/Agree.antt =====
-- States that agree on the pool and the pointers: src/arch/aarch64/kernel/continuations.rs,
-- arm_quantum_for_running, disarm_quantum and cont_switch.
use hermit_kernel.Base.{ℕ, ◌≡◌, refl, ap, ◌∙◌, Bool, true, false, Option, none, some, arith}
use hermit_kernel.Base.Tests.{◌==◌, if◌then◌else◌, ◌>>=◌}
use hermit_kernel.Continuation.{Conts, Cont, ContSwitch, Lifecycle, write, state_of}
use hermit_kernel.Continuation.Pool.{disarm_quantum, arm_quantum_for_running}
use hermit_kernel.Continuation.Switch.{switch}
use hermit_kernel.Continuation.Switch.Effects.{arm_quantum_for_running-Arms, disarm_quantum-Disarms}
use hermit_kernel.Continuation.Lifecycles.{Effect}

-- Inversion of a bind that gives a result.
pub bind_some {ℓ κ} :
    {A : Type ℓ} {B : Type κ} (m : Option A) (f : A → Option B) {b : B}
    → (m >>= f) ≡ some b
    → (a : A) × (m ≡ some a) × (f a ≡ some b)
bind_some none f e = cc
bind_some (some a) f e = (a, refl, e)

-- Two states agree on the pool and the pointers.
pub record Same (st st' : Conts) : Type 0 where
  pub next : st'.cont_next ≡ st.cont_next
  pub top : st'.cont_free_top ≡ st.cont_free_top
  pub buf : st'.cont_free_buf ≡ st.cont_free_buf
  pub states : (j : ℕ) → state_of st' j ≡ state_of st j
  pub current : st'.current_cont ≡ st.current_cont
  pub pending : st'.cont_pending ≡ st.cont_pending

pub Same-Effect :
    {st s st' : Conts} {i : ℕ} {l : Lifecycle} {cur pend : Option ℕ}
    → Same st s
    → Effect s st' i l cur pend
    → Effect st st' i l cur pend
Same-Effect {i = i} {l = l} a e = record {
  next = e.next ∙ a.next;
  top = e.top ∙ a.top;
  buf = e.buf ∙ a.buf;
  states = λ j. e.states j ∙ ap (λ (s : Lifecycle). if j == i then l else s) (a.states j);
  current = e.current;
  pending = e.pending;
}

pub Effect-Same :
    {st s st' : Conts} {i : ℕ} {l : Lifecycle} {cur pend : Option ℕ}
    → Effect st s i l cur pend
    → Same s st'
    → Effect st st' i l cur pend
Effect-Same e a = record {
  next = a.next ∙ e.next;
  top = a.top ∙ e.top;
  buf = a.buf ∙ e.buf;
  states = λ j. a.states j ∙ e.states j;
  current = a.current ∙ e.current;
  pending = a.pending ∙ e.pending;
}

flag_kept :
    (f : ℕ → Cont) (i j : ℕ) (b : Bool)
    → (write f i (record (f i) { quantum_armed = b }) j).state ≡ (f j).state
flag_kept f i j b = ground arith

pub disarm-Same : (st : Conts) (i : ℕ) → Same st (disarm_quantum st i)
disarm-Same st i =
    let d = disarm_quantum-Disarms st i in
    record {
      next = d.next;
      top = d.top;
      buf = d.buf;
      states = λ j. ap (λ (f : ℕ → Cont). (f j).state) d.pool ∙ flag_kept st.cont_pool i j false;
      current = d.current;
      pending = d.pending;
    }

pub arm-Same : (st : Conts) (i : ℕ) → Same st (arm_quantum_for_running st i)
arm-Same st i =
    let d = arm_quantum_for_running-Arms st i in
    record {
      next = d.next;
      top = d.top;
      buf = d.buf;
      states = λ j. ap (λ (f : ℕ → Cont). (f j).state) d.pool ∙ flag_kept st.cont_pool i j true;
      current = d.current;
      pending = d.pending;
    }

pub switch-Same : (st : Conts) (to : ContSwitch) → Same st (switch st to)
unfolding switch
switch-Same st to = record {
  next = refl;
  top = refl;
  buf = refl;
  states = λ j. refl;
  current = refl;
  pending = refl;
}
