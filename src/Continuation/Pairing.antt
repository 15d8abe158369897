-- ===== src/Continuation/Pairing.antt =====
-- The counters of the quantum of the harness continuation:
-- src/arch/aarch64/kernel/continuations.rs, arm_quantum_for_running, disarm_quantum,
-- continuation_self_escape and quantum_escape.
use hermit_kernel.Base.{
  ℕ, ◌+◌, ◌%◌, ◌^◌, ◌≡◌, ◌≢◌, ◌⊎◌, inl, inr, refl, ap, ◌∙◌, sym, Bool, true, false, some, arith,
}
use hermit_kernel.Base.Tests.{if◌then◌else◌, Bool-cases, ==_refl}
use hermit_kernel.Continuation.{Conts, Cont, Counters, c_escaped}
use hermit_kernel.Continuation.Pool.{inc, arm_quantum_for_running, disarm_quantum}
use hermit_kernel.Continuation.Switch.{switch}
use hermit_kernel.Continuation.Switch.Effects.{
  write_self, arm_quantum_for_running-Arms, disarm_quantum-Disarms,
}
use hermit_kernel.Continuation.Quantum.{
  mark_escaped, capture, escape_at, self_escape_at, quantum_escape, continuation_self_escape,
}
use hermit_kernel.Continuation.Escape.{
  self_escaping, escaping, escape_switch, self_escape_by, escape_by,
}

abbrev armed_bit : Bool → ℕ
armed_bit b = if b then 1 else 0

-- Every arm of the quantum is paired with a disarm or an escape, but for the one that is armed.
abbrev pub Pairs : Counters → Bool → Type 0
Pairs k armed = k.arms ≡ (k.disarms + k.escapes + armed_bit armed) % 2 ^ 32

abbrev pub IsPaired : Conts → ℕ → Type 0
IsPaired st i = Pairs st.counters (st.cont_pool i).quantum_armed

opens : (a d e : ℕ) → a ≡ (d + e + 0) % 2 ^ 32 → inc a ≡ (d + e + 1) % 2 ^ 32
opens a d e h = omega arith

disarms : (a d e : ℕ) → a ≡ (d + e + 1) % 2 ^ 32 → a ≡ (inc d + e + 0) % 2 ^ 32
disarms a d e h = omega arith

escapes : (a d e : ℕ) → a ≡ (d + e + 1) % 2 ^ 32 → a ≡ (d + inc e + 0) % 2 ^ 32
escapes a d e h = omega arith

both : (a d e : ℕ) → a ≡ (d + e + 1) % 2 ^ 32 → a ≢ (inc d + inc e + 0) % 2 ^ 32
both a d e h q = omega arith

Pairs-at : (k k' : Counters) (b b' : Bool) → k ≡ k' → b ≡ b' → Pairs k' b' → Pairs k b
Pairs-at k k' b b' e f p = rw (e, f) p

-- The counters after the quantum of the harness continuation was armed, or disarmed.
armed_counters :
    (st : Conts) (i : ℕ)
    → st.s6_cont ≡ some i
    → (arm_quantum_for_running st i).counters ≡ record st.counters { arms = inc st.counters.arms }
unfolding arm_quantum_for_running
armed_counters st i e = rw (e, ==_refl i) refl

disarmed_counters :
    (st : Conts) (i : ℕ)
    → st.s6_cont ≡ some i
    → (st.cont_pool i).quantum_armed ≡ true
    → (disarm_quantum st i).counters ≡ record st.counters { disarms = inc st.counters.disarms }
unfolding disarm_quantum
disarmed_counters st i e a = rw (a, e, ==_refl i) refl

-- Arming the quantum of the harness continuation, if it is not armed, and disarming it, if it is,
-- keep the counters paired.
quanta-IsPaired :
    (st : Conts) (i : ℕ)
    → st.s6_cont ≡ some i
    → IsPaired st i
    → (((st.cont_pool i).quantum_armed ≡ false) × IsPaired (arm_quantum_for_running st i) i)
      ⊎ (((st.cont_pool i).quantum_armed ≡ true) × IsPaired (disarm_quantum st i) i)
quanta-IsPaired st i e p =
    let k : Counters = st.counters in
    elim (Bool-cases (st.cont_pool i).quantum_armed) [
      | inr a ↦ inl (
        a,
        Pairs-at (arm_quantum_for_running st i).counters (record k { arms = inc k.arms })
            ((arm_quantum_for_running st i).cont_pool i).quantum_armed true (armed_counters st i e)
            (ap (λ (c : ℕ → Cont). (c i).quantum_armed) (arm_quantum_for_running-Arms st i).pool
              ∙ ap (λ (c : Cont). c.quantum_armed)
                  (write_self st.cont_pool i (record (st.cont_pool i) { quantum_armed = true })))
            (opens k.arms k.disarms k.escapes
              (Pairs-at k k false (st.cont_pool i).quantum_armed refl (sym a) p)),
      )
      | inl a ↦ inr (
        a,
        Pairs-at (disarm_quantum st i).counters (record k { disarms = inc k.disarms })
            ((disarm_quantum st i).cont_pool i).quantum_armed false (disarmed_counters st i e a)
            (ap (λ (c : ℕ → Cont). (c i).quantum_armed) (disarm_quantum-Disarms st i).pool
              ∙ ap (λ (c : Cont). c.quantum_armed)
                  (write_self st.cont_pool i (record (st.cont_pool i) { quantum_armed = false })))
            (disarms k.arms k.disarms k.escapes
              (Pairs-at k k true (st.cont_pool i).quantum_armed refl (sym a) p)),
      )
    ]

-- A cooperative escape of the harness continuation keeps the counters paired, but an escape in the
-- interrupt of its quantum does not: it counts an escape and a disarm for one arm.
pub escapes_pairing :
    (st : Conts) (i : ℕ)
    → st.current_cont ≡ some i
    → st.s6_cont ≡ some i
    → (st.cont_pool i).quantum_armed ≡ true
    → st.fp_save_acquired ≡ false
    → IsPaired st i
    → (a b : Conts) × (continuation_self_escape st ≡ some (true, a))
      × IsPaired a i
      × (quantum_escape st ≡ some (true, b))
      × (¬ IsPaired b i)
unfolding continuation_self_escape quantum_escape self_escaping escaping mark_escaped capture switch
escapes_pairing st i e s a f p =
    let k : Counters = st.counters in
    let paired : Pairs k true = Pairs-at k k true (st.cont_pool i).quantum_armed refl (sym a) p in
    let own =
      ap (λ (c : Cont). c.quantum_armed)
        (write_self st.cont_pool i
          (record (st.cont_pool i) { quantum_armed = false; state = c_escaped })) in
    (
      switch (self_escaping st i) (escape_switch (st.cont_pool i)),
      escaping st i,
      ap (self_escape_at st) e ∙ self_escape_by st i a f,
      Pairs-at (switch (self_escaping st i) (escape_switch (st.cont_pool i))).counters
          (record k { escapes = inc k.escapes }) ((self_escaping st i).cont_pool i).quantum_armed
          false (rw (s, ==_refl i) refl) own (escapes k.arms k.disarms k.escapes paired),
      ap (escape_at st) e ∙ escape_by st i a f,
      λ q. both k.arms k.disarms k.escapes paired (
          Pairs-at (escaping st i).counters (escaping st i).counters false
            ((escaping st i).cont_pool i).quantum_armed refl (sym own) q),
    )
