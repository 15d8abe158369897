-- ===== src/Continuation/FutexTable.antt =====
-- The futexes of continuations: src/arch/aarch64/kernel/continuations.rs, register_futex_wait,
-- clear_futex_slot, cont_futex_wait and cont_futex_wake. The word at the address is an argument.
pub mod Slots
pub mod Wake
pub mod Table
pub mod Kept
pub mod Waiting
use hermit_kernel.Base.{ℕ, zero, suc, ◌+◌, ◌-◌, Bool, true, false, not, ◌||◌, Option, none, some}
use hermit_kernel.Base.Tests.{◌==◌, ltb, leb, if◌then◌else◌, ◌>>=◌, ◌>>◌}
use hermit_kernel.Base.Int.{ℤ, pos, negsuc}
use hermit_kernel.Errno.{again, inval}
use hermit_kernel.Futex.{i32_max, negative}
use hermit_kernel.Continuation.{Conts, Cont, Counters, Lifecycle, c_ready, write, with_cont}
use hermit_kernel.Continuation.Pool.{inc, dec}
use hermit_kernel.Continuation.Parking.{Park, returned, parked, park_external}

abbrev pub max_futex_waiters : ℕ
max_futex_waiters = 128

-- The first of `n` slots from `i` on without an address, or the slot behind them.
unfoldable pub empty_slot : (ℕ → ℕ) → ℕ → ℕ → ℕ
empty_slot addrs zero i = i
empty_slot addrs (suc n) i = if addrs i == 0 then i else empty_slot addrs n (suc i)

-- A registration in the slot that was found.
unfoldable pub fill_slot : Conts → ℕ → ℕ → ℕ → Conts
fill_slot st i addr c = record st {
  futex_addrs = write st.futex_addrs i addr;
  futex_conts = write st.futex_conts i (some c);
  counters = record st.counters { futex_waiters = inc st.counters.futex_waiters };
}

unfoldable pub register_futex_wait : Conts → ℕ → ℕ → ℕ × Conts
unfolding empty_slot fill_slot
register_futex_wait st addr c =
    let i : ℕ = empty_slot st.futex_addrs max_futex_waiters 0 in
    if ltb i max_futex_waiters then (i, fill_slot st i addr c) else (max_futex_waiters, st)

unfoldable pub clear_futex_slot : Conts → ℕ → Conts
clear_futex_slot st i =
    if not (ltb i max_futex_waiters) then st else if st.futex_addrs i == 0 then st else record st {
      futex_addrs = write st.futex_addrs i 0;
      futex_conts = write st.futex_conts i none;
      counters = record st.counters { futex_waiters = dec st.counters.futex_waiters 1 };
    }

-- How a wait goes on: it returns a number, or the continuation is parked, and clears its slot and
-- returns 0 when it is resumed.
pub data Wait : Type 0 where
  returns : ℤ → Wait
  parks_with : ℕ → Wait

abbrev pub end_wait : ℕ → Park × Conts → Wait × Conts
end_wait slot (returned, st) = (returns (pos 0), clear_futex_slot st slot)
end_wait slot (parked, st) = (parks_with slot, st)

-- The rest of a wait, after it was registered.
unfoldable pub wait_in : ℕ × Conts → Option (Wait × Conts)
unfolding park_external clear_futex_slot
wait_in (slot, st) =
    if leb max_futex_waiters slot
    then some (returns (negative again), st)
    else do r ← park_external st false; some (end_wait slot r)

unfoldable pub cont_futex_wait : Conts → ℕ → ℕ → ℕ → Option (Wait × Conts)
unfolding register_futex_wait wait_in
cont_futex_wait st addr word expected = do
  cur ← st.current_cont
  if word == expected
      then wait_in (register_futex_wait st addr cur)
      else some (returns (negative again), st)

-- The loop of a wake: how many were woken, and which last.
pub record Waking : Type 0 where
  pub woken : ℕ
  pub last_cont : Option ℕ
  pub conts : Conts

-- A slot at the address, whose record is woken if it names one.
unfoldable pub wake_waiter : Waking → ℕ → Option ℕ → Waking
wake_waiter w i none = record w {
  conts = record w.conts {
    futex_addrs = write w.conts.futex_addrs i 0;
    futex_conts = write w.conts.futex_conts i none;
  };
}
wake_waiter w i (some c) = record {
  woken = w.woken + 1;
  last_cont = some c;
  conts = record w.conts {
    futex_addrs = write w.conts.futex_addrs i 0;
    futex_conts = write w.conts.futex_conts i none;
    cont_pool =
        write w.conts.cont_pool c
          (record (w.conts.cont_pool c) { pending_wake = true; state = c_ready });
  };
}

unfoldable pub wake_slot : ℕ → Waking → ℕ → Waking
unfolding wake_waiter
wake_slot target w i =
    if w.conts.futex_addrs i == 0 || not (w.conts.futex_addrs i == target)
    then w
    else wake_waiter w i (w.conts.futex_conts i)

-- The slots from `i` on, of which `n` are left.
unfoldable pub wake_slots : ℕ → ℕ → ℕ → ℕ → Waking → Waking
unfolding wake_slot
wake_slots target max_wake zero i w = w
wake_slots target max_wake (suc n) i w =
    let rest : Waking = wake_slots target max_wake n (suc i) (wake_slot target w i) in
    if leb max_wake w.woken then w else rest

-- The end of a wake.
abbrev pub set_pending : Option ℕ → Conts → Conts
set_pending none st = st
set_pending (some c) st = record st { cont_pending = some c }

abbrev pub finish_wake : Waking → ℕ × Conts
finish_wake w = (
  w.woken,
  set_pending w.last_cont (record w.conts {
    counters = record w.conts.counters {
      futex_waiters = dec w.conts.counters.futex_waiters w.woken;
    };
  }),
)

unfoldable pub wake_up_to : Conts → ℕ → ℕ → ℕ × Conts
unfolding wake_slots
wake_up_to st target max_wake = finish_wake (
    wake_slots target max_wake max_futex_waiters 0
      (record { woken = 0; last_cont = none; conts = st }))

abbrev pub with_count : ℕ × Conts → ℤ × Conts
with_count (n, st) = (pos n, st)

unfoldable pub cont_futex_wake : Conts → ℕ → ℤ → ℤ × Conts
unfolding wake_up_to
cont_futex_wake st target (negsuc _) = (negative inval, st)
cont_futex_wake st target (pos zero) = (pos 0, st)
cont_futex_wake st target (pos (suc n)) =
    with_count (wake_up_to st target (if suc n == i32_max then max_futex_waiters else suc n))
