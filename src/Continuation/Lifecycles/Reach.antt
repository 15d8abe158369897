-- ===== src/Continuation/Lifecycles/Reach.antt =====
-- Every state that the operations reach is sound: src/arch/aarch64/kernel/continuations.rs,
-- spawn_continuation, park_with_pend, quantum_escape, quantum_yield_to_drain,
-- continuation_teardown and the operations of Keeps.
use hermit_kernel.Base.{ℕ, ◌≡◌, inl, inr, ◌∙◌, sym, Bool, true, none, some}
use mathlib.Core.Path.{subst}
use hermit_kernel.Base.Int.{ℤ}
use hermit_kernel.Continuation.{Conts, Platform, c_parked, c_escaped}
use hermit_kernel.Continuation.Switch.{spawn_continuation}
use hermit_kernel.Continuation.Parking.{
  Park, park_with_pend, park_external, coop_wake, continuation_teardown,
}
use hermit_kernel.Continuation.Quantum.{
  continuation_self_escape, quantum_escape, quantum_yield_to_drain,
}
use hermit_kernel.Continuation.Drain.{drain_ready}
use hermit_kernel.Continuation.Lifecycles.{
  IsSound, Effect, IsLive-IsOut, Effect-IsPool, Effect-IsLive,
}
use hermit_kernel.Continuation.Lifecycles.Agree.{Same}
use hermit_kernel.Continuation.Lifecycles.Effects.{some_eq, park_external-Stops, self_escape-Stops}
use hermit_kernel.Continuation.Lifecycles.Interrupts.{
  interrupt-Effect, HarnessStops, park_with_pend-HarnessStops,
}
use hermit_kernel.Continuation.Lifecycles.Keeps.{
  Same-IsSound, Stops-IsSound, wake-IsSound, drain-IsSound, spawn-IsSound,
}
use hermit_kernel.Continuation.Lifecycles.Ending.{torn, teardown-IsSound}

-- A park of the harness that makes no continuation pending.
final-IsSound :
    {st st' : Conts} (i : ℕ)
    → st.current_cont ≡ some i
    → Effect st st' i c_parked none st.cont_pending
    → IsSound st
    → IsSound st'
final-IsSound i c e s =
    let (live, _) = s.current i c in
    record {
      pool = Effect-IsPool e s.pool (IsLive-IsOut i s.pool live);
      current = λ j q. absurd (cc e.current);
      pending = λ j q. Effect-IsLive e (λ z. cc) j (s.pending j (sym e.pending ∙ q));
    }

harness-IsSound :
    {st st' : Conts} (i : ℕ)
    → st.current_cont ≡ some i
    → HarnessStops st st' i
    → IsSound st
    → IsSound st'
harness-IsSound i c (inl e) s = Stops-IsSound i c_parked (λ z. cc) c e s
harness-IsSound i c (inr e) s = final-IsSound i c e s

-- The steps of the continuations of a core. The program, the drain and the interrupts may do
-- anything between them that leaves the pool and the pointers alone.
pub data Step (p : Platform) : Conts → Conts → Type 0 where
  works : {st st' : Conts} → Same st st' → Step p st st'
  spawns :
      {st st' : Conts} (entry func arg : ℕ) (fd : ℤ)
      → spawn_continuation p st entry func arg fd ≡ some st'
      → Step p st st'
  parks :
      {st st' : Conts} (b : Bool) (k : Park) → park_external st b ≡ some (k, st') → Step p st st'
  escapes :
      {st st' : Conts} (b : Bool) → continuation_self_escape st ≡ some (b, st') → Step p st st'
  parks_pending :
      {st st' : Conts} (b : Bool) (k : Park) → park_with_pend st b ≡ some (k, st') → Step p st st'
  interrupts :
      {st s st' : Conts}
      → quantum_escape st ≡ some (true, s)
      → quantum_yield_to_drain p s ≡ some st'
      → Step p st st'
  wakes : {st st' : Conts} → st' ≡ coop_wake st → Step p st st'
  drains : {st st' : Conts} → drain_ready p st ≡ some st' → Step p st st'
  ends : {st st' : Conts} → continuation_teardown st ≡ some st' → Step p st st'

pub data Reach (p : Platform) (st : Conts) : Conts → Type 0 where
  here : Reach p st st
  step : {s t : Conts} → Reach p st s → Step p s t → Reach p st t

Step-IsSound : {p : Platform} {st st' : Conts} → Step p st st' → IsSound st → IsSound st'
Step-IsSound (works e) ok = Same-IsSound e ok
Step-IsSound {p} {st} {st'} (spawns entry func arg fd e) ok =
    spawn-IsSound p st st' entry func arg fd e ok
Step-IsSound {p} {st} {st'} (parks b k e) ok =
    let (i, c, s) = park_external-Stops st b (k, st') e in Stops-IsSound i c_parked (λ z. cc) c s ok
Step-IsSound {p} {st} {st'} (escapes b e) ok = elim (self_escape-Stops st (b, st') e) [
  | inl same ↦ Same-IsSound same ok
  | inr (i, c, s) ↦ Stops-IsSound i c_escaped (λ z. cc) c s ok
]
Step-IsSound {p} {st} {st'} (parks_pending b k e) ok =
    let (i, c, h) = park_with_pend-HarnessStops st b (k, st') e in harness-IsSound i c h ok
Step-IsSound {p} {st} {st'} (interrupts {s = s} e q) ok =
    let (i, c, h) = interrupt-Effect p st s st' e q in
    Stops-IsSound i c_escaped (λ z. cc) c (inl h) ok
Step-IsSound {p} {st} {st'} (wakes e) ok = subst IsSound (sym e) (wake-IsSound st ok)
Step-IsSound {p} {st} {st'} (drains e) ok = drain-IsSound p st st' e ok
Step-IsSound {p} {st} {st'} (ends e) ok =
    let (i, c) = torn st st' e in
    let (s, q, _, _, sound) = teardown-IsSound st i ok c in
    subst IsSound (some_eq s st' (sym q ∙ e)) sound

-- Whatever steps a sound state takes, and in whatever order, the state that is reached is sound: the
-- free list of the pool holds different free records that were handed out before, the records that
-- never were are free, and the current and the pending continuation are different ones in use.
pub Reach-IsSound : (p : Platform) (st st' : Conts) → Reach p st st' → IsSound st → IsSound st'
Reach-IsSound p st st' here ok = ok
Reach-IsSound p st st' (step {s} r e) ok = Step-IsSound e (Reach-IsSound p st s r ok)
