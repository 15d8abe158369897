-- ===== src/Continuation/Wakes.antt =====
-- Whom a wake reaches: src/arch/aarch64/kernel/continuations.rs, park_external, coop_wake and
-- block_on_cont.
use hermit_kernel.Base.{ℕ, ◌≡◌, ◌≢◌, refl, ap, ◌∙◌, Bool, true, false, Option, some}
use hermit_kernel.Base.Tests.{◌>>=◌}
use hermit_kernel.Continuation.{Conts, Cont, c_ready, c_parked, with_cont, state_of}
use hermit_kernel.Continuation.Pool.{inc, disarm_quantum}
use hermit_kernel.Continuation.Switch.Effects.{write_self, write_ne, disarm_quantum-Disarms}
use hermit_kernel.Continuation.Parking.{
  Park, returned, parked, polls_again, count_park, park_unless_woken, park_external, coop_wake,
  count_resume, after_park, block_turn,
}
use hermit_kernel.Continuation.RoundTrip.{park_external-HasParked, coop_wake_pending, disarmed}

-- A wake reaches the continuation that parked last: when one parks while another is parked, the
-- next `coop_wake`, whichever resource it comes from, makes the last one ready and leaves the other
-- parked.
pub coop_wake_last :
    (st : Conts) (b : Bool) (i j : ℕ)
    → st.current_cont ≡ some i
    → (st.cont_pool i).pending_wake ≡ false
    → state_of st j ≡ c_parked
    → j ≢ i
    → (st' : Conts) × (park_external st b ≡ some (parked, st'))
      × (state_of (coop_wake st') i ≡ c_ready)
      × (state_of (coop_wake st') j ≡ c_parked)
      × ((coop_wake st').cont_pool j ≡ st.cont_pool j)
coop_wake_last st b i j e w parked_j ne =
    let (st', ep, hp) = park_external-HasParked st b i e w in
    let woken : Cont = record (st'.cont_pool i) { pending_wake = true; state = c_ready } in
    let pool = ap (λ (t : Conts). t.cont_pool) (coop_wake_pending st' i hp.pending) in
    let other =
      ap (λ (f : ℕ → Cont). f j) pool ∙ write_ne st'.cont_pool i j woken ne ∙ hp.others j ne in
    (
      st',
      ep,
      ap (λ (f : ℕ → Cont). (f i).state) pool
          ∙ ap (λ (c : Cont). c.state) (write_self st'.cont_pool i woken),
      ap (λ (c : Cont). c.state) other ∙ parked_j,
      other,
    )

stale :
    (mark : Conts → Conts) (st : Conts) (i : ℕ)
    → (st.cont_pool i).pending_wake ≡ true
    → park_unless_woken mark st i
      ≡ (returned, with_cont st i (record (st.cont_pool i) { pending_wake = false }))
unfolding park_unless_woken
stale mark st i w = rw w refl

park_external_stale :
    (st : Conts) (b : Bool) (i : ℕ)
    → st.current_cont ≡ some i
    → (st.cont_pool i).pending_wake ≡ true
    → park_external st b
      ≡ some (
        returned,
        with_cont
            (disarm_quantum st i)
            i
            (record ((disarm_quantum st i).cont_pool i) { pending_wake = false }),
      )
unfolding park_external
park_external_stale st b i e w =
    ap
      (λ (o : Option ℕ).
        o >>= λ j. some (park_unless_woken (count_park b j) (disarm_quantum st j) j))
      e
    ∙ ap some (
        stale (count_park b i) (disarm_quantum st i) i
          (ap (λ (c : Cont). c.pending_wake) (disarmed st i) ∙ w))

-- A turn of `block_on_cont` whose park is refused by a wake that came earlier counts a resume and
-- no park.
block_turn_stale :
    (st : Conts) (i : ℕ)
    → st.current_cont ≡ some i
    → (st.cont_pool i).pending_wake ≡ true
    → (st' : Conts) × (block_turn st false ≡ some (polls_again, st'))
      × (st'.counters.parks ≡ st.counters.parks)
      × (st'.counters.resumes ≡ inc st.counters.resumes)
unfolding block_turn count_resume
block_turn_stale st i e w =
    let d : Conts = disarm_quantum st i in
    let f = disarm_quantum-Disarms st i in
    (
      count_resume (with_cont d i (record (d.cont_pool i) { pending_wake = false })),
      ap (λ (m : Option (Park × Conts)). m >>= λ r. some (after_park r))
          (park_external_stale st true i e w),
      f.parks,
      ap inc f.resumes,
    )
