-- ===== src/Timers/Armed.antt =====
-- The hardware timer is always set for the earliest timer of the list.
use hermit_kernel.Base.{
  ℕ, ◌-◌, ◌≤◌, ◌<◌, ◌≡◌, ◌≢◌, refl, inl, inr, min, Bool, Option, none, some, arith,
}
use hermit_kernel.Base.Tests.{◌==◌, ltb, leb, if◌then◌else◌, Bool-cases}
use hermit_kernel.Timers.{
  Source, TimerList, Timers, Index, same_source, slot_at, with_time, not_set, next_timer,
  create_timer_abs, clear_active_and_set_next,
}

-- The slots are for the network and the scheduler, in this order, and their times are words.
pub record IsList (t : TimerList) : Type 0 where
  pub source_0 : t.slot_0.source ≡ Source.network
  pub source_1 : t.slot_1.source ≡ Source.scheduler
  pub word_0 : t.slot_0.wakeup_time ≤ not_set
  pub word_1 : t.slot_1.wakeup_time ≤ not_set

abbrev pub earliest : TimerList → ℕ
earliest t = min t.slot_0.wakeup_time t.slot_1.wakeup_time

-- The hardware timer for the earliest time, off if no timer is set.
abbrev pub armed_for : ℕ → Option ℕ
armed_for time = if time == not_set then none else some time

pub record IsArmed (t : Timers) : Type 0 where
  pub is_list : IsList t.list
  pub armed : t.oneshot ≡ armed_for (earliest t.list)

-- The time of the slot for a source.
abbrev pub time_of : TimerList → Source → ℕ
time_of t Source.network = t.slot_0.wakeup_time
time_of t Source.scheduler = t.slot_1.wakeup_time

abbrev pub other : Source → Source
other Source.network = Source.scheduler
other Source.scheduler = Source.network

-- What creating a timer does to armed timers.
pub record Creates (t : Timers) (s : Source) (time : ℕ) (out : Option Timers) : Type 0 where
  pub timers : Timers
  pub returns : out ≡ some timers
  pub is_armed : IsArmed timers
  pub own : time_of timers.list s ≡ min (time_of t.list s) time
  pub kept : time_of timers.list (other s) ≡ time_of t.list (other s)

created : Timers → Source → ℕ → Timers
unfolding next_timer
created t s time =
    let index = index_of s in
    let list = with_time t.list index (min (slot_at t.list index).wakeup_time time) in
    record {
      list = list;
      oneshot =
          if (slot_at list (next_timer list)).wakeup_time == time then some time else t.oneshot;
    }
  where
    index_of : Source → Index
    index_of Source.network = Index.first
    index_of Source.scheduler = Index.second

created_lem :
    (t : Timers) (s : Source) (time : ℕ)
    → IsList t.list
    → create_timer_abs t s time ≡ some (created t s time)
unfolding create_timer_abs created
created_lem t Source.network time v = rw (v.source_0)
created_lem t Source.scheduler time v = rw (v.source_0, v.source_1)

created-IsList :
    (t : Timers) (s : Source) (time : ℕ) → IsList t.list → IsList (created t s time).list
unfolding created
created-IsList t Source.network time v = ground arith
created-IsList t Source.scheduler time v = ground arith

created_armed :
    (t : Timers) (s : Source) (time : ℕ)
    → IsArmed t
    → time < not_set
    → (created t s time).oneshot ≡ armed_for (earliest (created t s time).list)
unfolding created
created_armed t Source.network time v small = ground arith
created_armed t Source.scheduler time v small = ground arith

created_own :
    (t : Timers) (s : Source) (time : ℕ)
    → time_of (created t s time).list s ≡ min (time_of t.list s) time
unfolding created
created_own t Source.network time = refl
created_own t Source.scheduler time = refl

created_kept :
    (t : Timers) (s : Source) (time : ℕ)
    → time_of (created t s time).list (other s) ≡ time_of t.list (other s)
unfolding created
created_kept t Source.network time = refl
created_kept t Source.scheduler time = refl

-- Creating a timer with a legal time does not panic. The slot of the source then has the earlier of
-- its old time and the new one, the other slot is as before, and the hardware timer is set for the
-- earliest of both.
pub create_timer_abs-IsArmed :
    (t : Timers) (s : Source) (time : ℕ)
    → IsArmed t
    → time < not_set
    → Creates t s time (create_timer_abs t s time)
create_timer_abs-IsArmed t s time v small = record {
  timers = created t s time;
  returns = created_lem t s time v.is_list;
  is_armed = record {
    is_list = created-IsList t s time v.is_list;
    armed = created_armed t s time v small;
  };
  own = created_own t s time;
  kept = created_kept t s time;
}

-- The source of the earliest timer; of two equal ones the network's.
abbrev pub fires : TimerList → Source
fires t = if leb t.slot_0.wakeup_time t.slot_1.wakeup_time then Source.network else Source.scheduler

-- A time moved forward by what the interrupt came too early.
abbrev pub moved : ℕ → ℕ → ℕ → ℕ
moved now fired time =
    if time == not_set then not_set else if ltb now fired then time - (fired - now) else time

-- What the timer interrupt does to armed timers.
pub record Clears (t : Timers) (now : ℕ) (out : Option (Bool × Timers)) : Type 0 where
  pub timers : Timers
  pub returns : out ≡ some (same_source (fires t.list) Source.network, timers)
  pub is_armed : IsArmed timers
  pub own : time_of timers.list (fires t.list) ≡ not_set
  pub others :
      time_of timers.list (other (fires t.list))
      ≡ moved now (earliest t.list) (time_of t.list (other (fires t.list)))

cleared : TimerList → ℕ → TimerList
cleared t now =
    if leb t.slot_0.wakeup_time t.slot_1.wakeup_time
    then record {
      slot_0 = record (t.slot_0) { wakeup_time = not_set };
      slot_1 = record (t.slot_1) {
        wakeup_time = moved now t.slot_0.wakeup_time t.slot_1.wakeup_time;
      };
    }
    else record {
      slot_0 = record (t.slot_0) {
        wakeup_time = moved now t.slot_1.wakeup_time t.slot_0.wakeup_time;
      };
      slot_1 = record (t.slot_1) { wakeup_time = not_set };
    }

cleared_lem :
    (t : Timers) (now : ℕ)
    → IsList t.list
    → earliest t.list ≢ not_set
    → clear_active_and_set_next t now
      ≡ some (
        same_source (fires t.list) Source.network,
        record { list = cleared t.list now; oneshot = armed_for (earliest (cleared t.list now)) },
      )
unfolding clear_active_and_set_next cleared
cleared_lem t now v h =
    elim (Bool-cases (leb t.list.slot_0.wakeup_time t.list.slot_1.wakeup_time)) [
      | inl e ↦ rw (e, v.source_0) (ground arith)
      | inr e ↦ rw (e, v.source_1) (ground arith)
    ]

cleared-IsList : (t : TimerList) (now : ℕ) → IsList t → IsList (cleared t now)
unfolding cleared
cleared-IsList t now v = ground arith

cleared_own : (t : TimerList) (now : ℕ) → time_of (cleared t now) (fires t) ≡ not_set
unfolding cleared
cleared_own t now = ground arith

cleared_others :
    (t : TimerList) (now : ℕ)
    → time_of (cleared t now) (other (fires t))
      ≡ moved now (earliest t) (time_of t (other (fires t)))
unfolding cleared
cleared_others t now = ground arith

-- If a timer is set, the timer interrupt does not panic. It wakes the network exactly if its timer
-- was the earliest, unsets the slot that fired, moves the other one forward by what the interrupt
-- came too early, and sets the hardware timer for what is then the earliest, or turns it off.
pub clear_active_and_set_next-IsArmed :
    (t : Timers) (now : ℕ)
    → IsArmed t
    → earliest t.list ≢ not_set
    → Clears t now (clear_active_and_set_next t now)
clear_active_and_set_next-IsArmed t now v h = record {
  timers = record {
    list = cleared t.list now;
    oneshot = armed_for (earliest (cleared t.list now));
  };
  returns = cleared_lem t now v.is_list h;
  is_armed = record { is_list = cleared-IsList t.list now v.is_list; armed = refl };
  own = cleared_own t.list now;
  others = cleared_others t.list now;
}

-- The timer interrupt panics if no timer is set.
pub clear_unset :
    (t : Timers) (now : ℕ)
    → earliest t.list ≡ not_set
    → IsList t.list
    → clear_active_and_set_next t now ≡ none
unfolding clear_active_and_set_next
clear_unset t now h v = ground arith
