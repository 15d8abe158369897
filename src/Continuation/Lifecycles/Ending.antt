-- ===== src/Continuation/Lifecycles/Ending.antt =====
-- The end of a continuation: src/arch/aarch64/kernel/continuations.rs, continuation_teardown.
use hermit_kernel.Base.{
  ℕ, ◌≡◌, ◌≢◌, inl, inr, refl, ap, ◌∙◌, sym, true, false, not, ◌&&◌, Option, none, some, arith,
}
use hermit_kernel.Base.Tests.{◌==◌, if◌then◌else◌, ◌>>=◌, Bool-cases}
use hermit_kernel.Continuation.{Conts, Cont, Counters, Lifecycle, c_free, with_cont, state_of}
use hermit_kernel.Continuation.Pool.{points, free_cont}
use hermit_kernel.Continuation.Pool.Bounds.{IsPool, free_cont-Freed, Freed-IsPool, room}
use hermit_kernel.Continuation.Switch.{switch}
use hermit_kernel.Continuation.Parking.{leave, close_quantum, drop_fd, continuation_teardown}
use hermit_kernel.Continuation.Lifecycles.{IsSound}
use hermit_kernel.Continuation.Lifecycles.Agree.{bind_some, Same, disarm-Same}
use hermit_kernel.Continuation.Lifecycles.Keeps.{Same-IsPool, Same-IsLive}

-- The state in which the record of a torn-down continuation is freed.
closing : Conts → ℕ → Conts
unfolding close_quantum
closing st i =
    let closed : Conts = close_quantum st i in
    record closed {
      scratch_slot = 0;
      abort_zone = false;
      counters = drop_fd (st.cont_pool i).owned_fd closed.counters;
    }

fields : {st : Conts} {s : Conts} → Same st s → (k : Counters) → Same st (record s { counters = k })
fields d k = record {
  next = d.next;
  top = d.top;
  buf = d.buf;
  states = d.states;
  current = d.current;
  pending = d.pending;
}

close-Same : (st : Conts) (i : ℕ) → Same st (close_quantum st i)
unfolding close_quantum
close-Same st i = elim (Bool-cases (points st.s6_cont i && not (st.cont_pool i).quantum_armed)) [
  | inl e ↦ rw e (fields (disarm-Same st i) _)
  | inr e ↦ rw e (disarm-Same st i)
]

closing-Same : (st : Conts) (i : ℕ) → Same st (closing st i)
unfolding closing
closing-Same st i =
    let d = close-Same st i in
    record {
      next = d.next;
      top = d.top;
      buf = d.buf;
      states = d.states;
      current = d.current;
      pending = d.pending;
    }

-- The rest of a teardown.
ending : Conts → ℕ → Cont → Conts
unfolding leave
ending s i c =
    leave
      (record (with_cont s i (record (s.cont_pool i) { state = c_free })) {
        teardown_happened = true;
      })
      c

teardown_by :
    (st s : Conts) (i : ℕ)
    → st.current_cont ≡ some i
    → free_cont (closing st i) i ≡ some s
    → continuation_teardown st ≡ some (ending s i (st.cont_pool i))
unfolding continuation_teardown closing ending
teardown_by st s i c e =
    ap
      (λ (o : Option ℕ).
        o >>= λ j. (free_cont (closing st j) j >>= λ z. some (ending z j (st.cont_pool j))))
      c
    ∙ ap (λ (o : Option Conts). o >>= λ z. some (ending z i (st.cont_pool i))) e

-- The rest of a teardown, but for the current pointer, changes neither the pool nor the pointers.
ending-Same :
    (s : Conts) (i : ℕ) (c : Cont)
    → state_of s i ≡ c_free
    → Same s (record (ending s i c) { current_cont = s.current_cont })
unfolding ending leave switch
ending-Same s i c e = record {
  next = refl;
  top = refl;
  buf = refl;
  states = λ j. ground arith;
  current = refl;
  pending = refl;
}

ending_current : (s : Conts) (i : ℕ) (c : Cont) → (ending s i c).current_cont ≡ none
unfolding ending leave switch
ending_current s i c = refl

without_current : (s : Conts) (cur : Option ℕ) → IsPool (record s { current_cont = cur }) → IsPool s
without_current s cur p = record {
  next = p.next;
  top = p.top;
  below = p.below;
  unused = p.unused;
  differ = p.differ;
  fresh = p.fresh;
}

elsewhere : (l k : Lifecycle) (i j : ℕ) → j ≢ i → (if j == i then l else k) ≡ k
elsewhere l k i j n = ground arith

pub torn :
    (st st' : Conts) → continuation_teardown st ≡ some st' → (i : ℕ) × (st.current_cont ≡ some i)
unfolding continuation_teardown
torn st st' e = let (i, c, _) = bind_some st.current_cont _ e in (i, c)

-- In a sound state the current continuation can always be torn down: its record is free, no
-- continuation is current, and the state is sound.
pub teardown-IsSound :
    (st : Conts) (i : ℕ)
    → IsSound st
    → st.current_cont ≡ some i
    → (st' : Conts) × (continuation_teardown st ≡ some st')
      × (state_of st' i ≡ c_free)
      × (st'.current_cont ≡ none)
      × IsSound st'
teardown-IsSound st i ok c =
    let (live, apart) = ok.current i c in
    let a = closing-Same st i in
    let pool = Same-IsPool a ok.pool in
    let live' = Same-IsLive a i live in
    let (s, e, f) =
      free_cont-Freed (closing st i) i (omega (arith, room i pool live', pool.next)) in
    let freed = Freed-IsPool i f pool live' in
    let z = ending-Same s i (st.cont_pool i) (ground (arith, f.states i)) in
    let s' : Conts = ending s i (st.cont_pool i) in
    let stopped = ending_current s i (st.cont_pool i) in
    (
      s',
      teardown_by st s i c e,
      z.states i ∙ ground (arith, f.states i),
      stopped,
      record {
        pool = without_current s' s.current_cont (Same-IsPool z freed);
        current = λ j q. absurd (cc stopped);
        pending = λ j q.
            let pend = sym a.pending ∙ sym f.pending ∙ sym z.pending ∙ q in
            let old = Same-IsLive a j (ok.pending j pend) in
            (
              omega (arith, z.next, f.next, old.0),
              λ x. old.1 (
                  sym (
                    f.states j
                    ∙ elsewhere c_free (state_of (closing st i) j) i j
                        (λ p. apart (pend ∙ ap some p)))
                  ∙ sym (z.states j)
                  ∙ x),
            );
      },
    )
