-- ===== src/Continuation/Switch/Layout.antt =====
-- Stacks and slots of continuations, and how one starts:
-- src/arch/aarch64/kernel/continuations.rs, cont_stack_top, cont_slot_top, build_frame,
-- spawn_continuation.
use hermit_kernel.Base.{
  ℕ, ◌+◌, ◌-◌, ◌≤◌, ◌<◌, ◌≡◌, ◌≢◌, ◌⊎◌, inl, inr, refl, ap, ◌∙◌, true, some, bit_and, arith,
}
use hermit_kernel.Base.Tests.{lt→ltb, ==_refl}
use hermit_kernel.Base.Int.{ℤ}
use hermit_kernel.Continuation.{
  Conts, Cont, Platform, Cpu, ContSwitch, c_ready, max_continuations, cont_stack_size, cont_guard,
  cont_slot_size, cont_slot_guard, cont_tls_magic, state_size, write, state_of,
}
use hermit_kernel.Continuation.Pool.{arm_quantum_for_running}
use hermit_kernel.Continuation.Pool.Bounds.{IsPool}
use hermit_kernel.Continuation.Pool.Alloc.{HasRoom, alloc_cont-IsPool, alloc_cont-kept}
use hermit_kernel.Continuation.Switch.Effects.{
  switch_cpu, switch_kept, arm_quantum_for_running-Arms,
}
use hermit_kernel.Continuation.Switch.{
  cont_stack_top, cont_slot_top, first_frame, build_frame, describe, start, resumer_frame_of,
  resumer_slot_of, spawn_continuation, restored,
}

-- The place of a core's i-th record comes before that of another.
abbrev pub Precedes : ℕ → ℕ → ℕ → ℕ → Type 0
Precedes core i core' j = (core < core') ⊎ (core ≡ core') × (i < j)

-- The stacks and slots of two continuations, on one core or two, do not meet: between the top of
-- the one and the first byte of the other lies the guard page.
pub stacks_apart :
    (p p' : Platform) (i j : ℕ)
    → p.cont_stacks ≡ p'.cont_stacks
    → p.cont_slots ≡ p'.cont_slots
    → Precedes p.core i p'.core j
    → i < max_continuations
    → (cont_stack_top p i + cont_guard + cont_stack_size ≤ cont_stack_top p' j)
      × (cont_slot_top p i + cont_slot_guard + cont_slot_size ≤ cont_slot_top p' j)
unfolding cont_stack_top cont_slot_top
stacks_apart p p' i j e f (inl h) l = (omega arith, omega arith)
stacks_apart p p' i j e f (inr h) l = (omega arith, omega arith)

-- The context that runs after a continuation was spawned.
pub record IsStarted (p : Platform) (i entry : ℕ) (cpu : Cpu) : Type 0 where
  pub at_entry : cpu.pc ≡ entry
  pub own_stack : cpu.stack_el0 + state_size + 16 ≡ cont_stack_top p i
  pub own_slot : cpu.stack_el1 ≡ cont_slot_top p i
  pub own_tls : cpu.tpidr ≡ cont_tls_magic
  pub cleared : (r : ℕ) → cpu.gpr r ≡ 0
  pub masked : bit_and cpu.pstate 0x80 ≡ 0x80

-- What is saved when the continuation starts does not lie where its first frame was built.
abbrev pub IsApart : Platform → Conts → ℕ → Type 0
IsApart p st i = resumer_frame_of p st.current_cont ≢ cont_stack_top p i - state_size

start_lem :
    (p : Platform) (st : Conts) (i : ℕ)
    → resumer_frame_of p st.current_cont ≢ (st.cont_pool i).state_frame
    → ((start p st i).cpu
        ≡ restored st.cpu (st.cont_pool i).slot_top (st.frames (st.cont_pool i).state_frame))
      × ((start p st i).current_cont ≡ some i)
      × (state_of (start p st i) i ≡ c_ready)
unfolding start
start_lem p st i h =
    let frame : ℕ = resumer_frame_of p st.current_cont in
    let slot : ℕ = resumer_slot_of p st.scratch_slot st.current_cont in
    let c : Cont = record (st.cont_pool i) {
      escape_frame = p.escape_buf i;
      state = c_ready;
      resumer_frame = frame;
      resumer_slot = slot;
    } in
    let running : Conts = record st { cont_pool = write st.cont_pool i c; current_cont = some i } in
    let a = arm_quantum_for_running-Arms running i in
    let to : ContSwitch = record {
      save = frame;
      target = c.state_frame;
      target_slot = c.slot_top;
      cur = c.state_frame;
    } in
    (
      switch_cpu (arm_quantum_for_running running i) to h ∙ rw (a.cpu, a.frames) refl,
      (switch_kept (arm_quantum_for_running running i) to).1 ∙ a.current,
      ap (λ (pool : ℕ → Cont). (pool i).state)
            ((switch_kept (arm_quantum_for_running running i) to).0 ∙ a.pool)
          ∙ rw (==_refl i) refl,
    )

-- The record of a spawned continuation, with its frame built.
built : Platform → Conts → ℕ → ℕ → ℕ → ℕ → ℤ → Conts
unfolding describe build_frame
built p st i entry func arg fd = build_frame p (describe p st i entry func arg fd) i

built_lem :
    (p : Platform) (st : Conts) (i entry func arg : ℕ) (fd : ℤ)
    → (((built p st i entry func arg fd).cont_pool i).state_frame ≡ cont_stack_top p i - state_size)
      × (((built p st i entry func arg fd).cont_pool i).slot_top ≡ cont_slot_top p i)
      × ((built p st i entry func arg fd).frames (cont_stack_top p i - state_size)
          ≡ first_frame p i (record (st.cont_pool i) { entry = entry; tls = cont_tls_magic }))
      × ((built p st i entry func arg fd).current_cont ≡ st.current_cont)
      × ((built p st i entry func arg fd).cpu ≡ st.cpu)
unfolding built first_frame
built_lem p st i entry func arg fd = (
  rw (==_refl i) refl,
  rw (==_refl i) refl,
  rw (==_refl i, ==_refl (cont_stack_top p i - state_size)) refl,
  refl,
  refl,
)

first_frame-IsStarted :
    (p : Platform) (i entry : ℕ) (cpu : Cpu) (c : Cont)
    → c.entry ≡ entry
    → c.tls ≡ cont_tls_magic
    → IsStarted p i entry (restored cpu (cont_slot_top p i) (first_frame p i c))
unfolding restored first_frame cont_stack_top
first_frame-IsStarted p i entry cpu c e t = record {
  at_entry = e;
  own_stack = omega arith;
  own_slot = refl;
  own_tls = t;
  cleared = λ r. refl;
  masked = refl;
}

-- After boot, and while the pool has room, `spawn_continuation` does not panic, provided that it
-- saves the context that spawns elsewhere than in the frame of a continuation: the new
-- continuation is the current one and is marked ready, and runs at its entry point, on its own
-- stack below its save area and with its own slot and TLS value, with the general registers
-- cleared and with interrupts masked.
pub spawn_runs :
    (p : Platform) (st : Conts) (entry func arg : ℕ) (fd : ℤ)
    → p.boot_ready ≡ true
    → IsPool st
    → HasRoom st
    → ((i : ℕ) → IsApart p st i)
    → (i : ℕ) × (st' : Conts) × (spawn_continuation p st entry func arg fd ≡ some st')
      × (i < max_continuations)
      × (st'.current_cont ≡ some i)
      × (state_of st' i ≡ c_ready)
      × IsStarted p i entry st'.cpu
unfolding spawn_continuation built
spawn_runs p st entry func arg fd b ok r h =
    let (i, st', e, l, _, _) = alloc_cont-IsPool st ok r in
    let (same_current, same_cpu) = alloc_cont-kept st i st' e in
    let (frame, slot, first, current, cpu) = built_lem p st' i entry func arg fd in
    let (regs, cur, ready) =
      start_lem p (built p st' i entry func arg fd) i
        (λ q. h i (rw (current, same_current, frame) at q)) in
    (
      i,
      start p (built p st' i entry func arg fd) i,
      rw (b, e, lt→ltb _ _ l) refl,
      l,
      cur,
      ready,
      rw (regs, cpu, slot, frame, first)
          (first_frame-IsStarted p i entry st'.cpu
            (record (st'.cont_pool i) { entry = entry; tls = cont_tls_magic }) refl refl),
    )
