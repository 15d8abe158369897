-- ===== src/Continuation/Tests.antt =====
-- Concrete continuations.
use hermit_kernel.Base.{
  ℕ, zero, suc, ◌+◌, ◌-◌, ◌*◌, ◌≤◌, ◌<◌, ◌≡◌, ◌≢◌, ◌⊎◌, inl, inr, refl, ap, Bool, true, false,
  Option, none, some, min, arith,
}
use mathlib.Core.Path.{subst}
use hermit_kernel.Base.Tests.{◌==◌, ltb, if◌then◌else◌}
use hermit_kernel.Base.Int.{pos, negsuc}
use hermit_kernel.Continuation.{
  Conts, Cont, Counters, Platform, State, Cpu, c_free, c_ready, c_running, c_parked, c_escaped,
  max_continuations, cont_guard, cont_slot_guard, cont_slot_size, cont_stack_size, state_size,
  state_of,
}
use hermit_kernel.Continuation.Pool.{alloc_cont, free_cont}
use hermit_kernel.Continuation.Pool.Bounds.{IsPool}
use hermit_kernel.Continuation.Pool.Alloc.{IsTaken, alloc_cont-IsPool, alloc_cont-free_cont}
use hermit_kernel.Continuation.Switch.{cont_stack_top, cont_slot_top, spawn_continuation, restored}
use hermit_kernel.Continuation.Switch.Layout.{stacks_apart, IsStarted, spawn_runs}
use hermit_kernel.Continuation.Parking.{Park, parked, park_external, coop_wake}
use hermit_kernel.Continuation.Quantum.{quantum_escape, continuation_self_escape}
use hermit_kernel.Continuation.Drain.{drain_resolve_ready, drain_ready, is_resumable}
use hermit_kernel.Continuation.Drain.Resolve.{Chosen, drain_resolve_ready_finds}
use hermit_kernel.Continuation.Drain.Resume.{IsRunning}
use hermit_kernel.Continuation.RoundTrip.{GoesOn, IsLeftAlone, drain_ready-park_external}
use hermit_kernel.Continuation.Preempted.{IsEscapeKept, drain_ready-self_escape, coop_wake_escaped}
use hermit_kernel.Continuation.Wakes.{coop_wake_last}
use hermit_kernel.Continuation.Pairing.{IsPaired, escapes_pairing}
use hermit_kernel.Continuation.FutexTable.{register_futex_wait, clear_futex_slot, cont_futex_wake}
use hermit_kernel.Continuation.FutexTable.Table.{IsTable, taken}
use hermit_kernel.Continuation.FutexTable.Kept.{calls-IsTable}
use hermit_kernel.Continuation.FutexTable.Wake.{waiters, NextIsReady, cont_futex_wake_lem}
use hermit_kernel.Continuation.Lifecycles.{IsSound}
use hermit_kernel.Continuation.Lifecycles.Reach.{Reach, here, step, spawns, wakes, Reach-IsSound}

abbrev no_cont : Cont
no_cont = record {
  state_frame = 0;
  slot_top = 0;
  tls = 0;
  state = c_free;
  pending_wake = false;
  entry = 0;
  resumer_frame = 0;
  resumer_slot = 0;
  escape_frame = 0;
  quantum_armed = false;
  user_func = 0;
  user_arg = 0;
  owned_fd = none;
}

abbrev platform : Platform
platform = record {
  core = 0;
  cont_stacks = 0x100000;
  cont_slots = 0x4000000;
  escape_buf = λ i. 0x20000 + 320 * i;
  quantum_harness_entry = 0x4000;
  dummy_save = 0x30000;
  exception_sp = 0x10000;
  last_stack_pointer = 0x18000;
  boot_ready = true;
}

abbrev empty_state : State
empty_state = record { spsel = 0; elr_el1 = 0; spsr_el1 = 0; sp_el0 = 0; tpidr_el0 = 0; x = λ r. 0 }

abbrev no_counts : Counters
no_counts = record {
  arms = 0;
  disarms = 0;
  escapes = 0;
  parks = 0;
  resumes = 0;
  fd_refs = 0;
  fd_dropped = 0;
  futex_waiters = 0;
}

-- The registers of a processor that runs a function which was called from 4660.
abbrev in_call : Cpu
in_call = record {
  pc = 4096;
  pstate = 0x3c4;
  stack_el0 = 0x108000;
  stack_el1 = 0x4010000;
  tpidr = 5;
  gpr = λ r. if r == 30 then 4660 else r;
  fp = λ r. r + 1;
}

-- The statics at boot.
abbrev boot : Conts
boot = record {
  cont_pool = λ i. no_cont;
  cont_next = 0;
  cont_free_top = 0;
  cont_free_buf = λ i. 0;
  current_cont = none;
  cont_pending = none;
  fp_save_acquired = false;
  fp_save_buf = λ r. 0;
  teardown_happened = false;
  sgi_pended = false;
  s6_cont = none;
  counters = no_counts;
  quantum_cycles_last = 0;
  readings = λ n. 100 * n;
  reads = 0;
  timer = none;
  scratch_slot = 0x10000;
  abort_zone = false;
  frames = λ a. empty_state;
  cpu = in_call;
  cont_switch = record { save = 0; target = 0; target_slot = 0; cur = 0 };
  futex_addrs = λ i. 0;
  futex_conts = λ i. none;
}

boot-IsPool : IsPool boot
boot-IsPool = record {
  next = omega arith;
  top = omega arith;
  below = λ k h. absurd (omega arith);
  unused = λ k h. refl;
  differ = λ j k hj hk e. absurd (omega arith);
  fresh = λ i h. refl;
}

boot-IsSound : IsSound boot
boot-IsSound = record { pool = boot-IsPool; current = λ i e. absurd cc; pending = λ i e. absurd cc }

boot-IsTable : IsTable boot
unfolding taken
boot-IsTable = record { counted = refl; linked = λ j. inl refl }

-- The first continuation of the pool runs.
abbrev own : Cont
own = record no_cont {
  state_frame = 0x107ee0;
  slot_top = 0x4010000;
  state = c_running;
  resumer_frame = 0xfee0;
  resumer_slot = 0x10000;
  escape_frame = 0x20000;
  quantum_armed = true;
}

-- The second is parked.
abbrev other : Cont
other = record own { state = c_parked; state_frame = 0x110ee0; quantum_armed = false }

abbrev two : ℕ → Cont
two zero = own
two (suc zero) = other
two _ = no_cont

abbrev busy : Conts
busy = record boot {
  cont_pool = two;
  cont_next = 2;
  current_cont = some 0;
  s6_cont = some 0;
  counters = record no_counts { arms = 1 };
}

free_above : (i : ℕ) → 2 ≤ i → (two i).state ≡ c_free
free_above zero h = absurd (omega arith)
free_above (suc zero) h = absurd (omega arith)
free_above (suc (suc i)) h = refl

busy-IsPool : IsPool busy
busy-IsPool = record {
  next = omega arith;
  top = omega arith;
  below = λ k h. absurd (omega arith);
  unused = λ k h. absurd (omega arith);
  differ = λ j k hj hk e. absurd (omega arith);
  fresh = free_above;
}

alloc_cont-IsPool_example :
    (i : ℕ) × (st' : Conts) × (alloc_cont boot ≡ some (i, st'))
    × (i < max_continuations)
    × IsTaken st' i
    × IsPool st'
alloc_cont-IsPool_example = alloc_cont-IsPool boot boot-IsPool (inr (omega arith))

alloc_cont-free_cont_example :
    (freed st' : Conts) × (free_cont busy 0 ≡ some freed)
    × (alloc_cont freed ≡ some (0, st'))
    × (st'.cont_free_top ≡ busy.cont_free_top)
    × (st'.cont_next ≡ busy.cont_next)
alloc_cont-free_cont_example = alloc_cont-free_cont busy 0 busy-IsPool (omega arith, λ e. absurd cc)

stacks_apart_example :
    (cont_stack_top platform 3 + cont_guard + cont_stack_size ≤ cont_stack_top platform 4)
    × (cont_slot_top platform 3 + cont_slot_guard + cont_slot_size ≤ cont_slot_top platform 4)
stacks_apart_example =
    stacks_apart platform platform 3 4 refl refl (inr (refl, omega arith)) (omega arith)

apart_from :
    (i : ℕ)
    → ◌≢◌ {A = ℕ} (platform.exception_sp - state_size) (cont_stack_top platform i - state_size)
unfolding cont_stack_top
apart_from i e = omega arith

spawn_runs_example :
    (i : ℕ) × (st' : Conts) × (spawn_continuation platform boot 0x4000 7 8 (negsuc 0) ≡ some st')
    × (i < max_continuations)
    × (st'.current_cont ≡ some i)
    × (state_of st' i ≡ c_ready)
    × IsStarted platform i 0x4000 st'.cpu
spawn_runs_example =
    spawn_runs platform boot 0x4000 7 8 (negsuc 0) refl boot-IsPool (inr (omega arith)) apart_from

abbrev woken : Conts
woken = record busy {
  cont_pool = λ i. if i == 1 then record other { state = c_ready } else two i;
  cont_pending = some 0;
}

drain_resolve_ready_finds_example :
    (i : ℕ) × (drain_resolve_ready woken ≡ some i)
    × (is_resumable (state_of woken i) ≡ true)
    × Chosen woken i
drain_resolve_ready_finds_example = drain_resolve_ready_finds woken 1 (omega arith) refl

abbrev parked_result : Option (Park × Conts) → Conts
parked_result none = boot
parked_result (some (k, st)) = st

abbrev escape_result : Option (Bool × Conts) → Conts
escape_result none = boot
escape_result (some (k, st)) = st

-- The drain's registers.
abbrev in_drain : Cpu
in_drain = record in_call { gpr = λ r. 9; fp = λ r. 9; tpidr = 9 }

-- The drain has worked since the first continuation parked.
abbrev after_park : Conts
after_park = record (parked_result (park_external busy true)) { cpu = in_drain }

left_alone :
    (st' : Conts) → park_external busy true ≡ some (parked, st') → IsLeftAlone st' after_park 0
unfolding park_external
left_alone st' e =
    subst (λ (t : Conts). IsLeftAlone t after_park 0) (ap parked_result e)
      (record { record_kept = refl; context_kept = refl; pending_kept = refl; current_kept = refl })

drain_ready-park_external_example :
    (st' s' : Conts) × (park_external busy true ≡ some (parked, st'))
    × (drain_ready platform (coop_wake after_park) ≡ some s')
    × IsRunning s' 0
    × GoesOn in_call s'.cpu 0x4010000
drain_ready-park_external_example =
    drain_ready-park_external platform busy 0 true refl refl refl (omega arith) after_park
      left_alone

abbrev after_escape : Conts
after_escape = record (escape_result (continuation_self_escape busy)) { cpu = in_drain }

escape_kept :
    (st' : Conts)
    → continuation_self_escape busy ≡ some (true, st')
    → IsEscapeKept st' after_escape 0
unfolding continuation_self_escape
escape_kept st' e =
    subst (λ (t : Conts). IsEscapeKept t after_escape 0) (ap escape_result e)
      (record {
        record_kept = refl;
        context_kept = refl;
        fp_kept = refl;
        acquired_kept = refl;
        pending_kept = refl;
        current_kept = refl;
      })

drain_ready-self_escape_example :
    (st' s' : Conts) × (continuation_self_escape busy ≡ some (true, st'))
    × (drain_ready platform after_escape ≡ some s')
    × IsRunning s' 0
    × GoesOn in_call s'.cpu 0x4010000
    × (s'.cpu.fp ≡ in_call.fp)
    × (s'.fp_save_acquired ≡ false)
drain_ready-self_escape_example =
    drain_ready-self_escape platform busy 0 refl refl refl refl (omega arith) after_escape
      escape_kept

-- The first continuation was preempted.
abbrev preempted : Conts
preempted = record busy {
  cont_pool =
      λ i. if i == 0 then record own { state = c_escaped; quantum_armed = false } else two i;
  current_cont = none;
  cont_pending = some 0;
  fp_save_acquired = true;
}

coop_wake_escaped_example :
    (s' : Conts) × (drain_ready platform (coop_wake preempted) ≡ some s')
    × IsRunning s' 0
    × (s'.cpu ≡ restored in_call 0x4010000 empty_state)
    × (quantum_escape s' ≡ none)
    × (continuation_self_escape s' ≡ none)
coop_wake_escaped_example = coop_wake_escaped platform preempted 0 refl refl refl (omega arith)

coop_wake_last_example :
    (st' : Conts) × (park_external busy false ≡ some (parked, st'))
    × (state_of (coop_wake st') 0 ≡ c_ready)
    × (state_of (coop_wake st') 1 ≡ c_parked)
    × ((coop_wake st').cont_pool 1 ≡ other)
coop_wake_last_example = coop_wake_last busy false 0 1 refl refl refl (omega arith)

escapes_pairing_example :
    (a b : Conts) × (continuation_self_escape busy ≡ some (true, a))
    × IsPaired a 0
    × (quantum_escape busy ≡ some (true, b))
    × (¬ IsPaired b 0)
escapes_pairing_example = escapes_pairing busy 0 refl refl refl refl refl

-- Two continuations wait at an address.
abbrev queued : Conts
queued = record busy {
  futex_addrs = λ i. if ltb i 2 then 4096 else 0;
  futex_conts = λ i. if ltb i 2 then some 1 else none;
}

cont_futex_wake_lem_example :
    ((cont_futex_wake queued 4096 (pos 5)).0 ≡ pos (min 5 (waiters queued 4096)))
    × ((min 5 (waiters queued 4096) ≡ 0) ⊎ NextIsReady (cont_futex_wake queued 4096 (pos 5)).1)
cont_futex_wake_lem_example = cont_futex_wake_lem queued 4096 5

two_waiters : waiters queued 4096 ≡ 2
unfolding waiters
two_waiters = refl

busy-IsTable : IsTable busy
unfolding taken
busy-IsTable = record { counted = refl; linked = λ j. inl refl }

calls-IsTable_example :
    IsTable (register_futex_wait busy 4096 1).1
    × IsTable (clear_futex_slot busy 0)
    × IsTable (cont_futex_wake busy 4096 (pos 1)).1
calls-IsTable_example = calls-IsTable busy 4096 1 0 4096 (pos 1) busy-IsTable (omega arith)

spawned :
    (i : ℕ) × (st' : Conts) × (spawn_continuation platform boot 0x4000 7 8 (negsuc 0) ≡ some st')
    × (i < max_continuations)
    × (st'.current_cont ≡ some i)
    × (state_of st' i ≡ c_ready)
    × IsStarted platform i 0x4000 st'.cpu
spawned =
    spawn_runs platform boot 0x4000 7 8 (negsuc 0) refl boot-IsPool (inr (omega arith)) apart_from

-- A continuation is spawned, and a wake comes.
spawn_and_wake : Reach platform boot (coop_wake spawned.1)
spawn_and_wake = step (step here (spawns 0x4000 7 8 (negsuc 0) spawned.2)) (wakes refl)

Reach-IsSound_example : IsSound (coop_wake spawned.1)
Reach-IsSound_example =
    Reach-IsSound platform boot (coop_wake spawned.1) spawn_and_wake boot-IsSound
