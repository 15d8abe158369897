-- ===== src/Continuation/Parking.antt =====
-- How a continuation stops: src/arch/aarch64/kernel/continuations.rs, park_with_pend, park_on,
-- park_final, park_external, park_for_external_wake, the turns of block_on_cont,
-- continuation_teardown and coop_wake.
use hermit_kernel.Base.{ℕ, Bool, true, false, not, ◌&&◌, Option, none, some}
use hermit_kernel.Base.Tests.{if◌then◌else◌, ◌>>=◌}
use hermit_kernel.Continuation.{Conts, Cont, Counters, c_free, c_ready, c_parked, with_cont}
use hermit_kernel.Continuation.Pool.{inc, dec, points, disarm_quantum, free_cont}
use hermit_kernel.Continuation.Switch.{switch}

-- How a call that may park ends: it returns at once, or the processor is in the resumer's context.
pub data Park : Type 0 where
  returned parked : Park

-- The switch from a continuation to its resumer.
unfoldable pub leave : Conts → Cont → Conts
unfolding switch
leave st c =
    switch (record st { current_cont = none })
      (record {
        save = c.state_frame;
        target = c.resumer_frame;
        target_slot = c.resumer_slot;
        cur = c.resumer_frame;
      })

-- The end of both parks, for the state with the quantum disarmed: `mark` is what they do to the
-- statics when the continuation is parked.
unfoldable pub park_unless_woken : (Conts → Conts) → Conts → ℕ → Park × Conts
unfolding leave
park_unless_woken mark st i =
    if (st.cont_pool i).pending_wake
    then (returned, with_cont st i (record (st.cont_pool i) { pending_wake = false }))
    else (
      parked,
      leave (mark (with_cont st i (record (st.cont_pool i) { state = c_parked }))) (st.cont_pool i),
    )

-- With `pend` the park also asks for a wake.
abbrev pub pend_wake : Bool → ℕ → Conts → Conts
pend_wake true i st = record st { cont_pending = some i; sgi_pended = true }
pend_wake false i st = st

unfoldable pub park_with_pend : Conts → Bool → Option (Park × Conts)
unfolding disarm_quantum park_unless_woken
park_with_pend st pend = do
  i ← st.current_cont
  some (park_unless_woken (pend_wake pend i) (disarm_quantum st i) i)

park_on : Conts → Option (Park × Conts)
unfolding park_with_pend
park_on st = park_with_pend st true

park_final : Conts → Option (Park × Conts)
unfolding park_with_pend
park_final st = park_with_pend st false

abbrev pub count_park : Bool → ℕ → Conts → Conts
count_park count_stats i st = record st {
  cont_pending = some i;
  counters =
      if count_stats then record st.counters { parks = inc st.counters.parks } else st.counters;
}

unfoldable pub park_external : Conts → Bool → Option (Park × Conts)
unfolding disarm_quantum park_unless_woken
park_external st count_stats = do
  i ← st.current_cont
  some (park_unless_woken (count_park count_stats i) (disarm_quantum st i) i)

-- A turn of the loop of `block_on_cont`: the future is ready, or the turn counts a resume and the
-- future is polled again, or the continuation is parked, and counts the resume when it is resumed.
pub data Turn : Type 0 where
  future_ready polls_again is_parked : Turn

unfoldable pub count_resume : Conts → Conts
count_resume st = record st { counters = record st.counters { resumes = inc st.counters.resumes } }

abbrev pub after_park : Park × Conts → Turn × Conts
after_park (returned, st) = (polls_again, count_resume st)
after_park (parked, st) = (is_parked, st)

unfoldable pub block_turn : Conts → Bool → Option (Turn × Conts)
unfolding park_external count_resume
block_turn st true = some (future_ready, st)
block_turn st false = do r ← park_external st true; some (after_park r)

-- The statics after the descriptor that a continuation owns was dropped.
abbrev pub drop_fd : Option ℕ → Counters → Counters
drop_fd none k = k
drop_fd (some _) k = record k { fd_refs = dec k.fd_refs 1; fd_dropped = inc k.fd_dropped }

-- The disarm of the harness continuation is counted also when its quantum was not armed.
unfoldable pub close_quantum : Conts → ℕ → Conts
unfolding disarm_quantum
close_quantum st i =
    let st' : Conts = disarm_quantum st i in
    if points st.s6_cont i && not (st.cont_pool i).quantum_armed
    then record st' { counters = record st'.counters { disarms = inc st'.counters.disarms } }
    else st'

unfoldable pub continuation_teardown : Conts → Option Conts
unfolding close_quantum free_cont leave
continuation_teardown st = do
  i ← st.current_cont
  let c : Cont = st.cont_pool i
  let closed : Conts = close_quantum st i
  st' ←
      free_cont
        (record closed {
          scratch_slot = 0;
          abort_zone = false;
          counters = drop_fd c.owned_fd closed.counters;
        })
        i
  some (
      leave
        (record (with_cont st' i (record (st'.cont_pool i) { state = c_free })) {
          teardown_happened = true;
        })
        c)

unfoldable pub wake_at : Conts → Option ℕ → Conts
wake_at st none = st
wake_at st (some i) =
    with_cont st i (record (st.cont_pool i) { pending_wake = true; state = c_ready })

unfoldable pub coop_wake : Conts → Conts
unfolding wake_at
coop_wake st = wake_at st st.cont_pending
