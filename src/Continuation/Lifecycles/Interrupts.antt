-- ===== src/Continuation/Lifecycles/Interrupts.antt =====
-- The interrupt of a quantum and the parks of the harness:
-- src/arch/aarch64/kernel/continuations.rs, quantum_escape, quantum_yield_to_drain and
-- park_with_pend.
use hermit_kernel.Base.{
  ℕ, ◌≡◌, ◌⊎◌, inl, inr, refl, ap, ◌∙◌, sym, Bool, true, false, Option, none, some, arith,
}
use mathlib.Core.Path.{subst}
use hermit_kernel.Base.Tests.{Bool-cases}
use hermit_kernel.Continuation.{Conts, ContSwitch, Platform, c_parked, c_escaped}
use hermit_kernel.Continuation.Pool.{acquire_fp_save, disarm_quantum}
use hermit_kernel.Continuation.Switch.{switch}
use hermit_kernel.Continuation.Parking.{Park, leave, park_unless_woken, pend_wake, park_with_pend}
use hermit_kernel.Continuation.Quantum.{
  mark_escaped, capture, save_fp, escape_at, quantum_escape, quantum_yield_to_drain,
}
use hermit_kernel.Continuation.Escape.{escaping, escape_by}
use hermit_kernel.Continuation.Lifecycles.{Effect}
use hermit_kernel.Continuation.Lifecycles.Agree.{
  bind_some, Same, Same-Effect, Effect-Same, disarm-Same, switch-Same,
}
use hermit_kernel.Continuation.Lifecycles.Effects.{Stops, Same-Stops, some_eq}

unarmed :
    (st : Conts) (i : ℕ)
    → (st.cont_pool i).quantum_armed ≡ false
    → escape_at st (some i) ≡ some (false, st)
unfolding escape_at
unarmed st i a = rw a refl

taken_area :
    (st : Conts) (i : ℕ)
    → (st.cont_pool i).quantum_armed ≡ true
    → st.fp_save_acquired ≡ true
    → escape_at st (some i) ≡ none
unfolding escape_at save_fp acquire_fp_save capture
taken_area st i a f = rw (a, f) refl

-- An escape in the interrupt happens only to a current continuation with an armed quantum, while
-- the FP save area is free.
escape_inv :
    (st s : Conts) (o : Option ℕ)
    → escape_at st o ≡ some (true, s)
    → (i : ℕ) × (o ≡ some i) × (s ≡ escaping st i)
unfolding escape_at
escape_inv st s none e = absurd cc
escape_inv st s (some i) e = elim (Bool-cases (st.cont_pool i).quantum_armed) [
  | inr a ↦ absurd (cc (unarmed st i a))
  | inl a ↦ elim (Bool-cases st.fp_save_acquired) [
    | inl f ↦ absurd (cc (taken_area st i a f))
    | inr f ↦ (
      i,
      refl,
      ap (λ (k : Bool × Conts). k.1)
          (some_eq (true, s) (true, escaping st i) (sym e ∙ escape_by st i a f)),
    )
  ]
]

yielding :
    (st : Conts) (i : ℕ)
    → Effect st
        (record (escaping st i) { current_cont = none; scratch_slot = 0 })
        i
        c_escaped
        none
        (some i)
unfolding escaping mark_escaped capture
yielding st i = record {
  next = refl;
  top = refl;
  buf = refl;
  states = λ j. ground arith;
  current = refl;
  pending = refl;
}

-- The interrupt of a quantum stops the current continuation.
pub interrupt-Effect :
    (p : Platform) (st s st' : Conts)
    → quantum_escape st ≡ some (true, s)
    → quantum_yield_to_drain p s ≡ some st'
    → (i : ℕ) × (st.current_cont ≡ some i) × Effect st st' i c_escaped none (some i)
unfolding quantum_escape quantum_yield_to_drain
interrupt-Effect p st s st' e q =
    let (i, c, same) = escape_inv st s st.current_cont e in
    let (k, _, r) = bind_some s.current_cont _ q in
    let to : ContSwitch = record {
      save = p.dummy_save;
      target = (s.cont_pool k).resumer_frame;
      target_slot = (s.cont_pool k).resumer_slot;
      cur = (s.cont_pool k).resumer_frame;
    } in
    let stopped : Conts = record s { current_cont = none; scratch_slot = 0 } in
    (
      i,
      c,
      subst (λ (t : Conts). Effect st t i c_escaped none (some i))
          (some_eq (switch stopped to) st' r)
          (Effect-Same
            (subst
              (λ (t : Conts).
                Effect st (record t { current_cont = none; scratch_slot = 0 }) i c_escaped none
                  (some i))
              (sym same) (yielding st i))
            (switch-Same stopped to)),
    )

-- A park of the harness stops the current continuation, and makes it the pending one or not.
abbrev pub HarnessStops : Conts → Conts → ℕ → Type 0
HarnessStops st st' i = Stops st st' i c_parked ⊎ Effect st st' i c_parked none st.cont_pending

-- The park of a continuation that no wake waits for.
parks_now :
    (b : Bool) (st : Conts) (i : ℕ)
    → (st.cont_pool i).pending_wake ≡ false
    → HarnessStops st (park_unless_woken (pend_wake b i) st i).1 i
unfolding park_unless_woken leave switch
parks_now true st i w = inl (
    inl (
      rw w (record {
        next = refl;
        top = refl;
        buf = refl;
        states = λ j. ground arith;
        current = refl;
        pending = refl;
      })))
parks_now false st i w = inr (
    rw w (record {
      next = refl;
      top = refl;
      buf = refl;
      states = λ j. ground arith;
      current = refl;
      pending = refl;
    }))

park_unless_woken-HarnessStops :
    (b : Bool) (st : Conts) (i : ℕ) → HarnessStops st (park_unless_woken (pend_wake b i) st i).1 i
unfolding park_unless_woken
park_unless_woken-HarnessStops b st i = elim (Bool-cases (st.cont_pool i).pending_wake) [
  | inl w ↦ inl (
      inr (
        rw w (record {
          next = refl;
          top = refl;
          buf = refl;
          states = λ j. ground arith;
          current = refl;
          pending = refl;
        })))
  | inr w ↦ parks_now b st i w
]

Same-HarnessStops :
    {st s st' : Conts} {i : ℕ} → Same st s → HarnessStops s st' i → HarnessStops st st' i
Same-HarnessStops a (inl e) = inl (Same-Stops a e)
Same-HarnessStops {st} {s} {st'} {i} a (inr e) =
    inr (subst (λ (o : Option ℕ). Effect st st' i c_parked none o) a.pending (Same-Effect a e))

pub park_with_pend-HarnessStops :
    (st : Conts) (b : Bool) (r : Park × Conts)
    → park_with_pend st b ≡ some r
    → (i : ℕ) × (st.current_cont ≡ some i) × HarnessStops st r.1 i
unfolding park_with_pend
park_with_pend-HarnessStops st b r e =
    let (i, c, q) = bind_some st.current_cont _ e in
    let d : Conts = disarm_quantum st i in
    (
      i,
      c,
      subst (λ (k : Park × Conts). HarnessStops st k.1 i)
          (some_eq (park_unless_woken (pend_wake b i) d i) r q)
          (Same-HarnessStops (disarm-Same st i) (park_unless_woken-HarnessStops b d i)),
    )
