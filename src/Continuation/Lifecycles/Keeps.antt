-- ===== src/Continuation/Lifecycles/Keeps.antt =====
-- Each operation keeps the pool and the pointers sound: src/arch/aarch64/kernel/continuations.rs,
-- spawn_continuation, coop_wake, drain_ready and what stops a continuation.
use hermit_kernel.Base.{ℕ, ◌≡◌, ◌≢◌, inl, inr, refl, ap, ◌∙◌, sym, true, none, some, arith}
use mathlib.Core.Path.{subst}
use hermit_kernel.Base.Tests.{ltb, assert, Option-cases}
use hermit_kernel.Base.Int.{ℤ}
use hermit_kernel.Continuation.{
  Conts, Cont, Platform, Lifecycle, c_free, c_ready, c_running, max_continuations, write, state_of,
}
use hermit_kernel.Continuation.Pool.{alloc_cont, arm_quantum_for_running}
use hermit_kernel.Continuation.Pool.Bounds.{IsPool, IsLive}
use hermit_kernel.Continuation.Pool.Alloc.{
  IsTaken, alloc_cont-IsPool, alloc_cont-states, HasRoom-alloc_cont,
}
use hermit_kernel.Continuation.Switch.{
  describe, build_frame, start, resumer_frame_of, resumer_slot_of, spawn_continuation,
}
use hermit_kernel.Continuation.Parking.{wake_at, coop_wake}
use hermit_kernel.Continuation.Drain.{is_resumable, resume_found, drain_resolve_ready, drain_ready}
use hermit_kernel.Continuation.Drain.Resolve.{drain_resolve_ready_lem}
use hermit_kernel.Continuation.Lifecycles.{
  IsSound, Effect, IsLive-IsOut, Effect-IsPool, Effect-IsLive, Effect-own,
}
use hermit_kernel.Continuation.Lifecycles.Agree.{
  bind_some, Same, Effect-Same, Same-Effect, arm-Same, switch-Same,
}
use hermit_kernel.Continuation.Lifecycles.Effects.{some_eq, Stops, coop_wake-Effect, resume-Effect}

pub Same-IsPool : {st st' : Conts} → Same st st' → IsPool st → IsPool st'
Same-IsPool {st} {st'} e ok = record {
  next = omega (arith, e.next, ok.next);
  top = omega (arith, e.next, e.top, ok.top);
  below = λ k h. ground (arith, e.next, e.top, e.buf, ok.below k);
  unused = λ k h. ground (arith, e.top, e.buf, e.states (st'.cont_free_buf k), ok.unused k);
  differ = λ j k hj hk q. ground (arith, e.top, e.buf, ok.differ j k);
  fresh = λ j h. ground (arith, e.next, e.states j, ok.fresh j);
}

pub Same-IsLive : {st st' : Conts} → Same st st' → (j : ℕ) → IsLive st j → IsLive st' j
Same-IsLive e j live = (omega (arith, e.next, live.0), λ q. live.1 (sym (e.states j) ∙ q))

pub Same-IsSound : {st st' : Conts} → Same st st' → IsSound st → IsSound st'
Same-IsSound e s = record {
  pool = Same-IsPool e s.pool;
  current = λ i c.
      let (live, n) = s.current i (sym e.current ∙ c) in
      (Same-IsLive e i live, λ q. n (sym e.pending ∙ q));
  pending = λ i c. Same-IsLive e i (s.pending i (sym e.pending ∙ c));
}

-- The current continuation stops, or goes on.
pub Stops-IsSound :
    {st st' : Conts} (i : ℕ) (l : Lifecycle)
    → l ≢ c_free
    → st.current_cont ≡ some i
    → Stops st st' i l
    → IsSound st
    → IsSound st'
Stops-IsSound {st} {st'} i l n c (inl e) s =
    let (live, _) = s.current i c in
    record {
      pool = Effect-IsPool e s.pool (IsLive-IsOut i s.pool live);
      current = λ j q. absurd (cc e.current);
      pending = λ j q. subst (IsLive st') (some_eq i j (sym e.pending ∙ q)) (Effect-own e n live.0);
    }
Stops-IsSound i l n c (inr e) s =
    let (live, _) = s.current i c in
    record {
      pool = Effect-IsPool e s.pool (IsLive-IsOut i s.pool live);
      current = λ j q.
          let (lj, nj) = s.current j (sym e.current ∙ q) in
          (Effect-IsLive e live.1 j lj, λ q'. nj (sym e.pending ∙ q'));
      pending = λ j q. Effect-IsLive e live.1 j (s.pending j (sym e.pending ∙ q));
    }

pub wake-IsSound : (st : Conts) → IsSound st → IsSound (coop_wake st)
unfolding coop_wake wake_at
wake-IsSound st s = elim (Option-cases st.cont_pending) [
  | inl e ↦ subst IsSound (sym (ap (wake_at st) e)) s
  | inr (i, e) ↦
      let f = coop_wake-Effect st i e in
      let live = s.pending i e in
      record {
        pool = Effect-IsPool f s.pool (IsLive-IsOut i s.pool live);
        current = λ j q.
            let (lj, nj) = s.current j (sym f.current ∙ q) in
            (Effect-IsLive f (λ z. cc) j lj, λ q'. nj (sym f.pending ∙ q'));
        pending = λ j q. Effect-IsLive f (λ z. cc) j (s.pending j (sym f.pending ∙ q));
      }
]

resumed-IsSound :
    {st st' : Conts} (i : ℕ)
    → Effect st st' i c_running (some i) none
    → IsLive st i
    → IsSound st
    → IsSound st'
resumed-IsSound {st} {st'} i e live s = record {
  pool = Effect-IsPool e s.pool (IsLive-IsOut i s.pool live);
  current = λ j q. (
    subst (IsLive st') (some_eq i j (sym e.current ∙ q)) (Effect-own e (λ z. cc) live.0),
    λ z. absurd (cc e.pending),
  );
  pending = λ j q. absurd (cc e.pending);
}

resumable-IsLive :
    (st : Conts) (i : ℕ) → IsPool st → is_resumable (state_of st i) ≡ true → IsLive st i
resumable-IsLive st i ok t = ground (arith, ok.fresh i)

pub drain-IsSound :
    (p : Platform) (st st' : Conts) → drain_ready p st ≡ some st' → IsSound st → IsSound st'
unfolding drain_ready resume_found
drain-IsSound p st st' e s = elim (Option-cases (drain_resolve_ready st)) [
  | inl n ↦ subst IsSound (some_eq st st' (sym (ap (resume_found p st) n) ∙ e)) s
  | inr (i, f) ↦
      resumed-IsSound i (resume-Effect p st st' i (sym (ap (resume_found p st) f) ∙ e))
        (resumable-IsLive st i s.pool ((drain_resolve_ready_lem st i f).0)) s
]

describe-Same :
    (p : Platform) (st : Conts) (i entry func arg : ℕ) (fd : ℤ)
    → Same st (describe p st i entry func arg fd)
unfolding describe
describe-Same p st i entry func arg fd = record {
  next = refl;
  top = refl;
  buf = refl;
  states = λ j. ground arith;
  current = refl;
  pending = refl;
}

build-Same : (p : Platform) (st : Conts) (i : ℕ) → Same st (build_frame p st i)
unfolding build_frame
build-Same p st i = record {
  next = refl;
  top = refl;
  buf = refl;
  states = λ j. ground arith;
  current = refl;
  pending = refl;
}

start-Effect :
    (p : Platform) (st : Conts) (i : ℕ)
    → Effect st (start p st i) i c_ready (some i) st.cont_pending
unfolding start
start-Effect p st i =
    let c : Cont = record (st.cont_pool i) {
      escape_frame = p.escape_buf i;
      state = c_ready;
      resumer_frame = resumer_frame_of p st.current_cont;
      resumer_slot = resumer_slot_of p st.scratch_slot st.current_cont;
    } in
    let running : Conts = record st { cont_pool = write st.cont_pool i c; current_cont = some i } in
    let marked : Effect st running i c_ready (some i) st.cont_pending = record {
      next = refl;
      top = refl;
      buf = refl;
      states = λ j. ground arith;
      current = refl;
      pending = refl;
    } in
    Effect-Same (Effect-Same marked (arm-Same running i)) (
      switch-Same (arm_quantum_for_running running i) (record {
        save = resumer_frame_of p st.current_cont;
        target = c.state_frame;
        target_slot = c.slot_top;
        cur = c.state_frame;
      }))

spawn_inv :
    (p : Platform) (st st' : Conts) (entry func arg : ℕ) (fd : ℤ)
    → spawn_continuation p st entry func arg fd ≡ some st'
    → (i : ℕ) × (s : Conts) × (alloc_cont st ≡ some (i, s))
      × (start p (build_frame p (describe p s i entry func arg fd) i) i ≡ st')
unfolding spawn_continuation
spawn_inv p st st' entry func arg fd e =
    let (_, _, e₁) = bind_some (assert p.boot_ready) _ e in
    let ((i, s), a, e₂) = bind_some (alloc_cont st) _ e₁ in
    let (_, _, e₃) = bind_some (assert (ltb i max_continuations)) _ e₂ in
    (i, s, a, some_eq _ st' e₃)

-- A continuation that was just allocated becomes the current one.
spawned-IsSound :
    {st s st' : Conts} (i : ℕ)
    → IsSound st
    → alloc_cont st ≡ some (i, s)
    → IsTaken s i
    → IsPool s
    → Effect s st' i c_ready (some i) s.cont_pending
    → IsSound st'
spawned-IsSound {st} {s} {st'} i ok a t pool e =
    let (records, grows, pend) = alloc_cont-states st i s a in
    let alive : ((j : ℕ) → st'.cont_pending ≡ some j → IsLive s j) = λ j q.
      let (lt, n) = ok.pending j (sym pend ∙ sym e.pending ∙ q) in
      (omega arith, λ z. n (ap (λ (f : ℕ → Cont). (f j).state) (sym records) ∙ z)) in
    record {
      pool = Effect-IsPool e pool (t.before, t.unlisted);
      current = λ j q.
          let same = some_eq i j (sym e.current ∙ q) in
          (
            subst (IsLive st') same (Effect-own e (λ z. cc) t.before),
            λ z. ((alive j z).1) (subst (λ (k : ℕ). state_of s k ≡ c_free) same t.free),
          );
      pending = λ j q. Effect-IsLive e (λ z. cc) j (alive j q);
    }

pub spawn-IsSound :
    (p : Platform) (st st' : Conts) (entry func arg : ℕ) (fd : ℤ)
    → spawn_continuation p st entry func arg fd ≡ some st'
    → IsSound st
    → IsSound st'
unfolding build_frame describe
spawn-IsSound p st st' entry func arg fd e ok =
    let (i, s, a, same) = spawn_inv p st st' entry func arg fd e in
    let (k, s', b, _, t, pool) =
      alloc_cont-IsPool st ok.pool (HasRoom-alloc_cont st (i, s) ok.pool a) in
    let pair : ◌≡◌ {A = ℕ × Conts} (k, s') (i, s) = some_eq (k, s') (i, s) (sym b ∙ a) in
    let built : Conts = build_frame p (describe p s i entry func arg fd) i in
    spawned-IsSound i ok a (subst (λ (r : ℕ × Conts). IsTaken r.1 r.0) pair t)
      (subst (λ (r : ℕ × Conts). IsPool r.1) pair pool)
      (subst (λ (z : Conts). Effect s z i c_ready (some i) s.cont_pending) same
        (Same-Effect (describe-Same p s i entry func arg fd) (
          Same-Effect (build-Same p (describe p s i entry func arg fd) i)
            (start-Effect p built i))))
