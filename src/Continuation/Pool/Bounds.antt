-- ===== src/Continuation/Pool/Bounds.antt =====
-- What the pool hands out: src/arch/aarch64/kernel/continuations.rs, alloc_cont and free_cont.
use hermit_kernel.Base.{ℕ, suc, ◌+◌, ◌≤◌, ◌<◌, ◌≡◌, ◌≢◌, inl, inr, refl, some, arith}
use hermit_kernel.Base.Tests.{◌==◌, if◌then◌else◌, Bool-cases, lt→ltb}
use hermit_kernel.Base.Pigeonhole.{IsInjectiveBelow, pigeonhole}
use hermit_kernel.Continuation.{Conts, c_free, max_continuations, write, with_cont, state_of}
use hermit_kernel.Continuation.Pool.{disarm_quantum, freed, free_cont}

-- The free list holds different records that were handed out before and are free, and all records
-- that were never handed out are free.
pub record IsPool (st : Conts) : Type 0 where
  pub next : st.cont_next ≤ max_continuations
  pub top : st.cont_free_top ≤ st.cont_next
  pub below : (k : ℕ) → k < st.cont_free_top → st.cont_free_buf k < st.cont_next
  pub unused : (k : ℕ) → k < st.cont_free_top → state_of st (st.cont_free_buf k) ≡ c_free
  pub differ : IsInjectiveBelow st.cont_free_top st.cont_free_buf
  pub fresh : (i : ℕ) → st.cont_next ≤ i → state_of st i ≡ c_free

-- A record was handed out and is in use.
abbrev pub IsLive : Conts → ℕ → Type 0
IsLive st i = (i < st.cont_next) × (state_of st i ≢ c_free)

pub IsLive-listed :
    {st : Conts} (i k : ℕ) → IsPool st → IsLive st i → k < st.cont_free_top → st.cont_free_buf k ≢ i
IsLive-listed i k ok live h e = live.1 (rw (← e) (ok.unused k h))

abbrev extended : (ℕ → ℕ) → ℕ → ℕ → ℕ → ℕ
extended f t i = write f t i

-- While a record is in use, the free list has room for it.
pub room : {st : Conts} (i : ℕ) → IsPool st → IsLive st i → st.cont_free_top < st.cont_next
room {st} i ok live =
    pigeonhole st.cont_next (suc st.cont_free_top) (write st.cont_free_buf st.cont_free_top i)
      (λ j k hj hk e.
        ground (arith, ok.differ j k, IsLive-listed i j ok live, IsLive-listed i k ok live))
      (λ k h. ground (arith, ok.below k))

-- What `free_cont` does to the fields that the pool is made of.
pub record Freed (st st' : Conts) (i : ℕ) : Type 0 where
  pub next : st'.cont_next ≡ st.cont_next
  pub top : st'.cont_free_top ≡ st.cont_free_top + 1
  pub buf : st'.cont_free_buf ≡ write st.cont_free_buf st.cont_free_top i
  pub states : (j : ℕ) → state_of st' j ≡ (if j == i then c_free else state_of st j)
  pub pending : st'.cont_pending ≡ st.cont_pending

abbrev pushed : Conts → ℕ → Conts
pushed st i = record st {
  cont_free_buf = write st.cont_free_buf st.cont_free_top i;
  cont_free_top = st.cont_free_top + 1;
}

abbrev after_free : Conts → ℕ → Conts
after_free st i =
    let st' : Conts = disarm_quantum (pushed st i) i in with_cont st' i (freed (st'.cont_pool i))

after_free-Freed : (st : Conts) (i : ℕ) → Freed st (after_free st i) i
unfolding disarm_quantum
after_free-Freed st i = elim (Bool-cases (st.cont_pool i).quantum_armed) [
  | inl e ↦
      rw e
        (record { next = refl; top = refl; buf = refl; states = λ j. ground arith; pending = refl })
  | inr e ↦
      rw e
        (record { next = refl; top = refl; buf = refl; states = λ j. ground arith; pending = refl })
]

pub free_cont-Freed :
    (st : Conts) (i : ℕ)
    → st.cont_free_top < max_continuations
    → (st' : Conts) × (free_cont st i ≡ some st') × Freed st st' i
unfolding free_cont
free_cont-Freed st i h = (after_free st i, rw (lt→ltb _ _ h) refl, after_free-Freed st i)

pub Freed-IsPool : {st st' : Conts} (i : ℕ) → Freed st st' i → IsPool st → IsLive st i → IsPool st'
Freed-IsPool {st} {st'} i f ok live = record {
  next = omega (arith, f.next, ok.next);
  top = omega (arith, f.next, f.top, room i ok live);
  below = λ k h. ground (arith, f.next, f.top, f.buf, ok.below k);
  unused = λ k h. ground (arith, f.top, f.buf, f.states (st'.cont_free_buf k), ok.unused k);
  differ = λ j k hj hk e.
      ground
        (arith, f.top, f.buf, ok.differ j k, IsLive-listed i j ok live, IsLive-listed i k ok live);
  fresh = λ j h. ground (arith, f.next, f.states j, ok.fresh j);
}

-- Giving back a record that is in use never overflows the free list. The record is free, and the
-- pool is well formed again.
free_cont-IsPool :
    (st : Conts) (i : ℕ)
    → IsPool st
    → IsLive st i
    → (st' : Conts) × (free_cont st i ≡ some st') × (state_of st' i ≡ c_free) × IsPool st'
free_cont-IsPool st i ok live =
    let (st', e, f) = free_cont-Freed st i (omega (arith, room i ok live, ok.next)) in
    (st', e, ground (arith, f.states i), Freed-IsPool i f ok live)
