-- ===== src/Timers/Tests.antt =====
-- The timers of src/scheduler/timer_interrupts.rs at concrete inputs.
use hermit_kernel.Base.{◌≡◌, refl, none, some, false, arith}
use hermit_kernel.Timers.{
  Timers, TimerList, Source, new, not_set, create_timer_abs, clear_active_and_set_next,
}
use hermit_kernel.Timers.Armed.{IsArmed, Creates, create_timer_abs-IsArmed}

abbrev idle_timers : Timers
idle_timers = record { list = new; oneshot = none }

idle-IsArmed : IsArmed idle_timers
unfolding new
idle-IsArmed = record {
  is_list = record { source_0 = refl; source_1 = refl; word_0 = omega arith; word_1 = omega arith };
  armed = refl;
}

create_timer_abs-IsArmed_example :
    Creates idle_timers Source.scheduler 500 (create_timer_abs idle_timers Source.scheduler 500)
create_timer_abs-IsArmed_example =
    create_timer_abs-IsArmed idle_timers Source.scheduler 500 idle-IsArmed (omega arith)

abbrev both : TimerList
both = record {
  slot_0 = record { source = Source.network; wakeup_time = 900 };
  slot_1 = record { source = Source.scheduler; wakeup_time = 500 };
}

abbrev both_timers : Timers
both_timers = record { list = both; oneshot = some 500 }

both-IsArmed : IsArmed both_timers
both-IsArmed = record {
  is_list = record { source_0 = refl; source_1 = refl; word_0 = omega arith; word_1 = omega arith };
  armed = refl;
}

-- The interrupt came 20 microseconds early, and the other timer moves by as much.
early_interrupt :
    clear_active_and_set_next both_timers 480
    ≡ some (
      false,
      record {
        list = record {
          slot_0 = record { source = Source.network; wakeup_time = 880 };
          slot_1 = record { source = Source.scheduler; wakeup_time = not_set };
        };
        oneshot = some 880;
      },
    )
unfolding clear_active_and_set_next
early_interrupt = refl
