-- ===== src/Continuation/FutexTable/Kept.antt =====
-- Every call keeps the table of waiters: src/arch/aarch64/kernel/continuations.rs, register_futex_wait,
-- clear_futex_slot, cont_futex_wait and cont_futex_wake.
use hermit_kernel.Base.{ℕ, zero, suc, ◌+◌, ◌≤◌, ◌≡◌, ◌≢◌, refl, ap, Option, none, some, arith}
use hermit_kernel.Base.Tests.{◌==◌, if◌then◌else◌}
use hermit_kernel.Base.Int.{ℤ, pos, negsuc}
use hermit_kernel.Futex.{i32_max}
use hermit_kernel.Continuation.{Conts, Counters}
use hermit_kernel.Continuation.FutexTable.{
  Waking, wake_waiter, wake_slot, wake_slots, set_pending, finish_wake, wake_up_to, cont_futex_wake,
  max_futex_waiters, register_futex_wait, clear_futex_slot,
}
use hermit_kernel.Continuation.FutexTable.Slots.{IsLinked, wake_slots-IsLinked, wake_slots_taken}
use hermit_kernel.Continuation.FutexTable.Table.{
  IsTable, taken, taken-le, register_futex_wait-IsTable, clear_futex_slot-IsTable,
}

wake_waiter_counters :
    (w : Waking) (i : ℕ) (o : Option ℕ) → (wake_waiter w i o).conts.counters ≡ w.conts.counters
unfolding wake_waiter
wake_waiter_counters w i none = refl
wake_waiter_counters w i (some c) = refl

wake_slots_counters :
    (target max_wake n i : ℕ) (w : Waking)
    → (wake_slots target max_wake n i w).conts.counters ≡ w.conts.counters
unfolding wake_slots wake_slot
wake_slots_counters target max_wake zero i w = refl
wake_slots_counters target max_wake (suc n) i w = ground (
  arith,
  wake_slots_counters target max_wake n (suc i) (wake_slot target w i),
  wake_waiter_counters w i (w.conts.futex_conts i),
)

set_pending-IsTable : (st : Conts) (o : Option ℕ) → IsTable st → IsTable (set_pending o st)
unfolding taken
set_pending-IsTable st none t = t
set_pending-IsTable st (some c) t = record { counted = t.counted; linked = t.linked }

-- The waiters that were woken are taken off the counter.
finish-IsTable :
    (w : Waking)
    → w.conts.counters.futex_waiters ≡ taken w.conts + w.woken
    → w.conts.counters.futex_waiters ≤ max_futex_waiters
    → ((j : ℕ) → IsLinked w.conts j)
    → IsTable (finish_wake w).1
unfolding taken
finish-IsTable w e l linked =
    set_pending-IsTable _ w.last_cont (record { counted = omega arith; linked = linked })

-- A wake keeps the table well formed.
wake_up_to-IsTable : (st : Conts) (target m : ℕ) → IsTable st → IsTable (wake_up_to st target m).1
unfolding wake_up_to taken
wake_up_to-IsTable st target m t =
    let start : Waking = record { woken = 0; last_cont = none; conts = st } in
    let w : Waking = wake_slots target m max_futex_waiters 0 start in
    let same =
      ap (λ (k : Counters). k.futex_waiters)
        (wake_slots_counters target m max_futex_waiters 0 start) in
    finish-IsTable w
      (omega (arith, same, t.counted, wake_slots_taken target m max_futex_waiters 0 start t.linked))
      (omega (arith, same, t.counted, taken-le st))
      (wake_slots-IsLinked target m max_futex_waiters 0 start t.linked)

cont_futex_wake-IsTable :
    (st : Conts) (target : ℕ) (n : ℤ) → IsTable st → IsTable (cont_futex_wake st target n).1
unfolding cont_futex_wake
cont_futex_wake-IsTable st target (negsuc n) t = t
cont_futex_wake-IsTable st target (pos zero) t = t
cont_futex_wake-IsTable st target (pos (suc n)) t =
    wake_up_to-IsTable st target (if suc n == i32_max then max_futex_waiters else suc n) t

-- Registrations, the clearing of slots and wakes keep the table well formed: its counter is the
-- number of taken slots, and each of these names a continuation.
pub calls-IsTable :
    (st : Conts) (addr c slot target : ℕ) (n : ℤ)
    → IsTable st
    → addr ≢ 0
    → IsTable (register_futex_wait st addr c).1
      × IsTable (clear_futex_slot st slot)
      × IsTable (cont_futex_wake st target n).1
calls-IsTable st addr c slot target n t h = (
  register_futex_wait-IsTable st addr c t h,
  clear_futex_slot-IsTable st slot t,
  cont_futex_wake-IsTable st target n t,
)
