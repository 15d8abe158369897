-- ===== src/Timers.antt =====
-- src/scheduler/timer_interrupts.rs: the timers of a core, of which the one-shot hardware timer
-- serves the earliest. Times are microseconds since boot, as 64-bit words; the current time is an
-- argument. `none` as a result is a panic.
pub mod Armed
mod Tests
use hermit_kernel.Base.{
  ℕ, ◌+◌, ◌-◌, ◌%◌, ◌^◌, min, Bool, true, false, ◌&&◌, not, Option, none, some,
}
use hermit_kernel.Base.Tests.{◌==◌, ltb, leb, if◌then◌else◌, ◌>>=◌, ◌>>◌, assert}

pub data Source : Type 0 where
  network scheduler : Source

abbrev pub same_source : Source → Source → Bool
same_source Source.network Source.network = true
same_source Source.scheduler Source.scheduler = true
same_source _ _ = false

-- `u64::MAX`, the wakeup time of a timer that is not set.
abbrev pub not_set : ℕ
not_set = 2 ^ 64 - 1

pub record Slot : Type 0 where
  pub source : Source
  pub wakeup_time : ℕ

-- The array of two slots.
pub record TimerList : Type 0 where
  pub slot_0 : Slot
  pub slot_1 : Slot

-- The list with the time for which the hardware timer is set.
pub record Timers : Type 0 where
  pub list : TimerList
  pub oneshot : Option ℕ

pub new : TimerList
new = record {
  slot_0 = record { source = Source.network; wakeup_time = not_set };
  slot_1 = record { source = Source.scheduler; wakeup_time = not_set };
}

-- Which of the two slots a search finds.
pub data Index : Type 0 where
  first second : Index

abbrev pub slot_at : TimerList → Index → Slot
slot_at t first = t.slot_0
slot_at t second = t.slot_1

abbrev pub with_time : TimerList → Index → ℕ → TimerList
with_time t first time = record t { slot_0 = record (t.slot_0) { wakeup_time = time } }
with_time t second time = record t { slot_1 = record (t.slot_1) { wakeup_time = time } }

-- `find`
pub slot_by_source : TimerList → Source → Option Index
slot_by_source t s =
    if same_source t.slot_0.source s
    then some first
    else if same_source t.slot_1.source s
    then some second
    else none

-- `min_by`, which keeps the first of two equal slots.
pub next_timer : TimerList → Index
next_timer t = if leb t.slot_0.wakeup_time t.slot_1.wakeup_time then first else second

-- A 64-bit subtraction.
abbrev adjusted : ℕ → ℕ → ℕ
adjusted offset time = if time == not_set then time else (time + 2 ^ 64 - offset) % 2 ^ 64

pub adjust_by : TimerList → ℕ → TimerList
adjust_by t offset = record {
  slot_0 = record (t.slot_0) { wakeup_time = adjusted offset t.slot_0.wakeup_time };
  slot_1 = record (t.slot_1) { wakeup_time = adjusted offset t.slot_1.wakeup_time };
}

pub create_timer_abs : Timers → Source → ℕ → Option Timers
unfolding slot_by_source next_timer
create_timer_abs t s wakeup_time = do
  index ← slot_by_source t.list s
  let previous = slot_at t.list index
  let list = with_time t.list index (min previous.wakeup_time wakeup_time)
  let next = slot_at list (next_timer list)
  some (record {
    list = list;
    oneshot = if next.wakeup_time == wakeup_time then some wakeup_time else t.oneshot;
  })

-- `get_timer_ticks() + wakeup_micros`
pub create_timer : Timers → ℕ → Source → ℕ → Option Timers
unfolding create_timer_abs
create_timer t now s wakeup_micros = create_timer_abs t s ((now + wakeup_micros) % 2 ^ 64)

-- The first part is whether the network waker is woken.
pub clear_active_and_set_next : Timers → ℕ → Option (Bool × Timers)
unfolding next_timer adjust_by
clear_active_and_set_next t now = do
  let index = next_timer t.list
  let lowest = slot_at t.list index
  assert (not (lowest.wakeup_time == not_set))
  let wakes = same_source lowest.source Source.network
  let cleared = with_time t.list index not_set
  let list =
      if ltb now lowest.wakeup_time then adjust_by cleared (lowest.wakeup_time - now) else cleared
  let new_lowest = (slot_at list (next_timer list)).wakeup_time
  some (
    wakes,
    record { list = list; oneshot = if new_lowest == not_set then none else some new_lowest },
  )
