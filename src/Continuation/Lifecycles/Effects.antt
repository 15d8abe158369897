-- ===== src/Continuation/Lifecycles/Effects.antt =====
-- What each operation does to the pool and the pointers:
-- src/arch/aarch64/kernel/continuations.rs, park_external, continuation_self_escape, coop_wake and
-- drain_ready.
use hermit_kernel.Base.{
  ℕ, ◌≡◌, ◌⊎◌, inl, inr, refl, ap, ◌∙◌, sym, Bool, true, false, none, some, arith,
}
use mathlib.Core.Path.{subst}
use hermit_kernel.Base.Tests.{assert, Bool-cases, Option-cases}
use hermit_kernel.Continuation.{
  Conts, ContSwitch, Platform, Lifecycle, c_ready, c_running, c_parked, c_escaped, state_of,
}
use hermit_kernel.Continuation.Pool.{
  acquire_fp_save, disarm_quantum, arm_quantum_for_running, release_fp_save,
}
use hermit_kernel.Continuation.Switch.{switch}
use hermit_kernel.Continuation.Parking.{
  Park, leave, park_unless_woken, count_park, park_external, coop_wake,
}
use hermit_kernel.Continuation.Quantum.{
  mark_escaped, save_fp, self_escape_at, continuation_self_escape,
}
use hermit_kernel.Continuation.Drain.{is_escaped, restore_fp, mark_running, switch_to, resume}
use hermit_kernel.Continuation.Escape.{self_escaping, escape_switch, self_escape_by}
use hermit_kernel.Continuation.RoundTrip.{coop_wake_pending}
use hermit_kernel.Continuation.Lifecycles.{Effect}
use hermit_kernel.Continuation.Lifecycles.Agree.{
  bind_some, Same, Same-Effect, Effect-Same, disarm-Same, arm-Same, switch-Same,
}

-- What a park or another operation of the current continuation may do to the states.
abbrev pub Stops : Conts → Conts → ℕ → Lifecycle → Type 0
Stops st st' i l =
    Effect st st' i l none (some i)
    ⊎ Effect st st' i (state_of st i) st.current_cont st.cont_pending

unless-Stops :
    (b : Bool) (st : Conts) (i : ℕ)
    → Stops st (park_unless_woken (count_park b i) st i).1 i c_parked
unfolding park_unless_woken leave switch
unless-Stops b st i = elim (Bool-cases (st.cont_pool i).pending_wake) [
  | inl w ↦ inr (
      rw w (record {
        next = refl;
        top = refl;
        buf = refl;
        states = λ j. ground arith;
        current = refl;
        pending = refl;
      }))
  | inr w ↦ inl (
      rw w (record {
        next = refl;
        top = refl;
        buf = refl;
        states = λ j. ground arith;
        current = refl;
        pending = refl;
      }))
]

pub Same-Stops :
    {st s st' : Conts} {i : ℕ} {l : Lifecycle} → Same st s → Stops s st' i l → Stops st st' i l
Same-Stops a (inl e) = inl (Same-Effect a e)
Same-Stops {st} {s} {st'} {i} a (inr e) = inr (record {
  next = e.next ∙ a.next;
  top = e.top ∙ a.top;
  buf = e.buf ∙ a.buf;
  states = λ j. ground (arith, e.states j, a.states j, a.states i);
  current = e.current ∙ a.current;
  pending = e.pending ∙ a.pending;
})

pub some_eq {ℓ} : {A : Type ℓ} (a b : A) → some a ≡ some b → a ≡ b
some_eq a b e = cc

pub park_external-Stops :
    (st : Conts) (b : Bool) (r : Park × Conts)
    → park_external st b ≡ some r
    → (i : ℕ) × (st.current_cont ≡ some i) × Stops st r.1 i c_parked
unfolding park_external
park_external-Stops st b r e =
    let (i, c, q) = bind_some st.current_cont _ e in
    let d : Conts = disarm_quantum st i in
    (
      i,
      c,
      subst (λ (k : Park × Conts). Stops st k.1 i c_parked)
          (some_eq (park_unless_woken (count_park b i) d i) r q)
          (Same-Stops (disarm-Same st i) (unless-Stops b d i)),
    )

stays : (st : Conts) (i : ℕ) → Effect st st i (state_of st i) st.current_cont st.cont_pending
stays st i = record {
  next = refl;
  top = refl;
  buf = refl;
  states = λ j. ground arith;
  current = refl;
  pending = refl;
}

unarmed :
    (st : Conts) (i : ℕ)
    → (st.cont_pool i).quantum_armed ≡ false
    → self_escape_at st (some i) ≡ some (false, st)
unfolding self_escape_at
unarmed st i a = rw a refl

taken_area :
    (st : Conts) (i : ℕ)
    → (st.cont_pool i).quantum_armed ≡ true
    → st.fp_save_acquired ≡ true
    → self_escape_at st (some i) ≡ none
unfolding self_escape_at save_fp acquire_fp_save
taken_area st i a f = rw (a, f) refl

self_escaping-Effect :
    (st : Conts) (i : ℕ) → Effect st (self_escaping st i) i c_escaped none (some i)
unfolding self_escaping mark_escaped
self_escaping-Effect st i = record {
  next = refl;
  top = refl;
  buf = refl;
  states = λ j. ground arith;
  current = refl;
  pending = refl;
}

escape-Stops :
    (st : Conts) (i : ℕ) (r : Bool × Conts)
    → self_escape_at st (some i) ≡ some r
    → Stops st r.1 i c_escaped
escape-Stops st i r e = elim (Bool-cases (st.cont_pool i).quantum_armed) [
  | inr a ↦
      subst (λ (k : Bool × Conts). Stops st k.1 i c_escaped)
        (some_eq (false, st) r (sym (unarmed st i a) ∙ e)) (inr (stays st i))
  | inl a ↦ elim (Bool-cases st.fp_save_acquired) [
    | inl f ↦ absurd (cc (taken_area st i a f))
    | inr f ↦
        let to : ContSwitch = escape_switch (st.cont_pool i) in
        subst (λ (k : Bool × Conts). Stops st k.1 i c_escaped)
          (some_eq (true, switch (self_escaping st i) to) r (sym (self_escape_by st i a f) ∙ e))
          (inl (Effect-Same (self_escaping-Effect st i) (switch-Same (self_escaping st i) to)))
  ]
]

pub self_escape-Stops :
    (st : Conts) (r : Bool × Conts)
    → continuation_self_escape st ≡ some r
    → (Same st r.1) ⊎ ((i : ℕ) × (st.current_cont ≡ some i) × Stops st r.1 i c_escaped)
unfolding continuation_self_escape self_escape_at
self_escape-Stops st r e = elim (Option-cases st.current_cont) [
  | inl c ↦ inl (
      subst (λ (k : Bool × Conts). Same st k.1)
        (some_eq (false, st) r (sym (ap (self_escape_at st) c) ∙ e))
        (record {
          next = refl;
          top = refl;
          buf = refl;
          states = λ j. refl;
          current = refl;
          pending = refl;
        }))
  | inr (i, c) ↦ inr (i, c, escape-Stops st i r (sym (ap (self_escape_at st) c) ∙ e))
]

-- A wake makes the pending continuation ready.
pub coop_wake-Effect :
    (st : Conts) (i : ℕ)
    → st.cont_pending ≡ some i
    → Effect st (coop_wake st) i c_ready st.current_cont st.cont_pending
coop_wake-Effect st i e =
    subst (λ (s : Conts). Effect st s i c_ready st.current_cont st.cont_pending)
      (sym (coop_wake_pending st i e))
      (record {
        next = refl;
        top = refl;
        buf = refl;
        states = λ j. ground arith;
        current = refl;
        pending = refl;
      })

restore-Same : (b : Bool) (st st' : Conts) → restore_fp b st ≡ some st' → Same st st'
unfolding restore_fp release_fp_save
restore-Same false st st' e = subst (Same st) (some_eq st st' e) (record {
  next = refl;
  top = refl;
  buf = refl;
  states = λ j. refl;
  current = refl;
  pending = refl;
})
restore-Same true st st' e =
    let (_, _, q) = bind_some (assert st.fp_save_acquired) _ e in
    subst (Same st) (some_eq _ st' q) (record {
      next = refl;
      top = refl;
      buf = refl;
      states = λ j. refl;
      current = refl;
      pending = refl;
    })

-- A continuation that is resumed runs, and is the current one.
pub resume-Effect :
    (p : Platform) (st st' : Conts) (i : ℕ)
    → resume p st i ≡ some st'
    → Effect st st' i c_running (some i) none
unfolding resume mark_running
resume-Effect p st st' i e =
    let (s, r, q) =
      bind_some
        (restore_fp (is_escaped (state_of st i)) (arm_quantum_for_running (mark_running p st i) i))
        _ e in
    let marked : Effect st (mark_running p st i) i c_running (some i) none = record {
      next = refl;
      top = refl;
      buf = refl;
      states = λ j. ground arith;
      current = refl;
      pending = refl;
    } in
    subst (λ (t : Conts). Effect st t i c_running (some i) none)
      (some_eq (switch s (switch_to p st i)) st' q)
      (Effect-Same
        (Effect-Same (Effect-Same marked (arm-Same (mark_running p st i) i)) (restore-Same _ _ s r))
        (switch-Same s (switch_to p st i)))
