-- ===== src/Continuation/Lifecycles.antt =====
-- The life of continuations as a step relation: src/arch/aarch64/kernel/continuations.rs,
-- spawn_continuation, park_external, park_with_pend, coop_wake, continuation_self_escape,
-- quantum_escape, quantum_yield_to_drain, drain_ready and continuation_teardown, without futexes.
pub mod Agree
pub mod Effects
pub mod Ending
pub mod Interrupts
pub mod Keeps
pub mod Reach
use hermit_kernel.Base.{
  ℕ, ◌+◌, ◌≤◌, ◌<◌, ◌≡◌, ◌≢◌, ◌⊎◌, inl, inr, refl, ap, ◌∙◌, sym, Bool, true, false, Option, none,
  some, arith, ℕ_discrete,
}
use hermit_kernel.Base.Tests.{◌==◌, if◌then◌else◌, Bool-cases, Option-cases, ==_refl}
use hermit_kernel.Base.Pigeonhole.{IsInjectiveBelow}
use hermit_kernel.Continuation.{Conts, Cont, Lifecycle, c_free, write, state_of}
use hermit_kernel.Continuation.Pool.Bounds.{IsPool, IsLive, IsLive-listed}

-- The pool is well formed, and the current and the pending continuation are different ones in use.
pub record IsSound (st : Conts) : Type 0 where
  pub pool : IsPool st
  pub current : (i : ℕ) → st.current_cont ≡ some i → IsLive st i × (st.cont_pending ≢ some i)
  pub pending : (i : ℕ) → st.cont_pending ≡ some i → IsLive st i

-- An operation that gives the i-th record a state, and sets the pointers.
pub record Effect (st st' : Conts) (i : ℕ) (l : Lifecycle) (cur pend : Option ℕ) : Type 0 where
  pub next : st'.cont_next ≡ st.cont_next
  pub top : st'.cont_free_top ≡ st.cont_free_top
  pub buf : st'.cont_free_buf ≡ st.cont_free_buf
  pub states : (j : ℕ) → state_of st' j ≡ (if j == i then l else state_of st j)
  pub current : st'.current_cont ≡ cur
  pub pending : st'.cont_pending ≡ pend

-- A record is not in the free list.
abbrev pub IsOut : Conts → ℕ → Type 0
IsOut st i = (i < st.cont_next) × ((k : ℕ) → k < st.cont_free_top → st.cont_free_buf k ≢ i)

pub IsLive-IsOut : {st : Conts} (i : ℕ) → IsPool st → IsLive st i → IsOut st i
IsLive-IsOut i ok live = (live.0, λ k h. IsLive-listed i k ok live h)

module _ {st st' : Conts} {i : ℕ} {l : Lifecycle} {cur pend : Option ℕ}
    (e : Effect st st' i l cur pend) where
  pub Effect-IsPool : IsPool st → IsOut st i → IsPool st'
  Effect-IsPool ok out = record {
    next = omega (arith, e.next, ok.next);
    top = omega (arith, e.next, e.top, ok.top);
    below = λ k h. ground (arith, e.next, e.top, e.buf, ok.below k);
    unused =
        λ k h. ground (arith, e.top, e.buf, e.states (st'.cont_free_buf k), ok.unused k, out.1 k);
    differ = λ j k hj hk q. ground (arith, e.top, e.buf, ok.differ j k);
    fresh = λ j h. ground (arith, e.next, e.states j, ok.fresh j, out.0);
  }

  pub Effect-IsLive : l ≢ c_free → (j : ℕ) → IsLive st j → IsLive st' j
  Effect-IsLive n j live = (omega (arith, e.next, live.0), λ q. ground (arith, e.states j, live.1))

  pub Effect-own : l ≢ c_free → i < st.cont_next → IsLive st' i
  Effect-own n h = (omega (arith, e.next), λ q. ground (arith, e.states i))
