-- ===== src/Continuation/FutexTable/Waiting.antt =====
-- A wait: src/arch/aarch64/kernel/continuations.rs, cont_futex_wait.
use hermit_kernel.Base.{ℕ, ◌+◌, ◌<◌, ◌≡◌}
use hermit_kernel.Base.Int.{pos}
use hermit_kernel.Continuation.{Conts}
use hermit_kernel.Continuation.FutexTable.{Wait, returns, parks_with, max_futex_waiters}
use hermit_kernel.Continuation.FutexTable.Wake.{waiters}

-- Two states have the same table of waiters.
pub record SameTable (st st' : Conts) : Type 0 where
  pub addrs : st'.futex_addrs ≡ st.futex_addrs
  pub conts : st'.futex_conts ≡ st.futex_conts
  pub counted : st'.counters.futex_waiters ≡ st.counters.futex_waiters

-- What a wait that registered has done when it gives up the processor, or returns.
abbrev pub Waits : Conts → ℕ → Wait → Conts → Type 0
Waits st addr (parks_with slot) st' =
    (slot < max_futex_waiters) × (waiters st' addr ≡ waiters st addr + 1)
Waits st addr (returns n) st' = (n ≡ pos 0) × ((j : ℕ) → st'.futex_addrs j ≡ st.futex_addrs j)
