-- ===== src/Continuation/Quantum.antt =====
-- A continuation loses the processor at the end of its quantum:
-- src/arch/aarch64/kernel/continuations.rs, quantum_armed, quantum_escape, quantum_yield_to_drain
-- and continuation_self_escape.
use hermit_kernel.Base.{ℕ, ◌-◌, Bool, true, false, not, Option, none, some}
use hermit_kernel.Base.Tests.{if◌then◌else◌, ◌>>=◌}
use hermit_kernel.Continuation.{
  Conts, Cont, Counters, Platform, c_escaped, state_size, write, with_cont,
}
use hermit_kernel.Continuation.Pool.{inc, points, acquire_fp_save}
use hermit_kernel.Continuation.Switch.{switch}

abbrev pub armed_at : Conts → Option ℕ → Bool
armed_at st none = false
armed_at st (some i) = (st.cont_pool i).quantum_armed

pub quantum_armed : Conts → Bool
quantum_armed st = armed_at st st.current_cont

-- The FP registers go to the one save area.
unfoldable pub save_fp : Conts → Option Conts
unfolding acquire_fp_save
save_fp st = do st' ← acquire_fp_save st; some (record st' { fp_save_buf = st'.cpu.fp })

-- The continuation is marked and is the next that the drain resumes.
unfoldable pub mark_escaped : Conts → ℕ → Conts
mark_escaped st i =
    record (with_cont st i (record (st.cont_pool i) { quantum_armed = false; state = c_escaped })) {
      cont_pending = some i;
    }

-- The context that the interrupt saved in the slot is copied.
unfoldable pub capture : Conts → Cont → Conts
capture st c = record st {
  frames = write st.frames c.escape_frame (st.frames (c.slot_top - state_size));
}

abbrev pub count_escape : Counters → Counters
count_escape k = record k { escapes = inc k.escapes; disarms = inc k.disarms }

unfoldable pub escape_at : Conts → Option ℕ → Option (Bool × Conts)
unfolding capture save_fp mark_escaped
escape_at st none = some (false, st)
escape_at st (some i) = if not (st.cont_pool i).quantum_armed then some (false, st) else do
  st' ← save_fp (capture st (st.cont_pool i))
  some (true, record (mark_escaped st' i) { counters = count_escape st'.counters })

unfoldable pub quantum_escape : Conts → Option (Bool × Conts)
unfolding escape_at
quantum_escape st = escape_at st st.current_cont

unfoldable pub quantum_yield_to_drain : Platform → Conts → Option Conts
unfolding switch
quantum_yield_to_drain p st = do
  i ← st.current_cont
  let c : Cont = st.cont_pool i
  some (
      switch (record st { current_cont = none; scratch_slot = 0 })
        (record {
          save = p.dummy_save;
          target = c.resumer_frame;
          target_slot = c.resumer_slot;
          cur = c.resumer_frame;
        }))

unfoldable pub self_escape_at : Conts → Option ℕ → Option (Bool × Conts)
unfolding save_fp mark_escaped switch
self_escape_at st none = some (false, st)
self_escape_at st (some i) = if not (st.cont_pool i).quantum_armed then some (false, st) else do
  st' ← save_fp st
  let c : Cont = st.cont_pool i
  some (
    true,
    switch
        (record (mark_escaped st' i) {
          counters =
              if points st.s6_cont i
              then record st.counters { escapes = inc st.counters.escapes }
              else st.counters;
          current_cont = none;
          scratch_slot = 0;
        })
        (record {
          save = c.escape_frame;
          target = c.resumer_frame;
          target_slot = c.resumer_slot;
          cur = c.resumer_frame;
        }),
  )

unfoldable pub continuation_self_escape : Conts → Option (Bool × Conts)
unfolding self_escape_at
continuation_self_escape st = self_escape_at st st.current_cont
