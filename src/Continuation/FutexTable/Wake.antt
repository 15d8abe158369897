-- ===== src/Continuation/FutexTable/Wake.antt =====
-- What a wake does: src/arch/aarch64/kernel/continuations.rs, cont_futex_wake.
use hermit_kernel.Base.{
  ℕ, zero, suc, ◌≤◌, ◌≡◌, ◌⊎◌, inl, inr, refl, ap, ◌∙◌, sym, min, true, not, ◌||◌, Option, none,
  some, arith,
}
use hermit_kernel.Base.Tests.{◌==◌, leb, if◌then◌else◌, Bool-cases, ==_iff}
use hermit_kernel.Base.Int.{pos}
use hermit_kernel.Futex.{i32_max}
use hermit_kernel.Continuation.{
  Conts, Cont, Counters, Lifecycle, c_ready, max_continuations, state_of,
}
use hermit_kernel.Continuation.Pool.{dec}
use hermit_kernel.Continuation.Switch.Effects.{write_self}
use hermit_kernel.Continuation.Drain.{is_resumable, scan_pool, resolve_from, drain_resolve_ready}
use hermit_kernel.Continuation.FutexTable.{
  Waking, wake_waiter, wake_slot, wake_slots, set_pending, finish_wake, wake_up_to, cont_futex_wake,
  max_futex_waiters,
}
use hermit_kernel.Continuation.FutexTable.Slots.{count, count-le, is_waiter, wake_slots_woken}

-- How many wait at an address.
unfoldable pub waiters : Conts → ℕ → ℕ
unfolding count
waiters st target = count (is_waiter st target) max_futex_waiters 0

waiters-le : (st : Conts) (target : ℕ) → waiters st target ≤ max_futex_waiters
unfolding waiters
waiters-le st target = count-le (is_waiter st target) max_futex_waiters 0

abbrev waking : Conts → Waking
waking st = record { woken = 0; last_cont = none; conts = st }

-- The last continuation that was woken is ready, and there is one as soon as one was woken.
abbrev LastReady : Waking → Type 0
LastReady w =
    (w.woken ≡ 0) × (w.last_cont ≡ none)
    ⊎ ((c : ℕ) × (w.last_cont ≡ some c) × (state_of w.conts c ≡ c_ready))

wake_waiter-LastReady :
    (w : Waking) (i : ℕ) (o : Option ℕ) → LastReady w → LastReady (wake_waiter w i o)
unfolding wake_waiter
wake_waiter-LastReady w i none (inl h) = inl h
wake_waiter-LastReady w i none (inr h) = inr h
wake_waiter-LastReady w i (some c) h = inr (
  c,
  refl,
  ap (λ (r : Cont). r.state)
      (write_self w.conts.cont_pool c
        (record (w.conts.cont_pool c) { pending_wake = true; state = c_ready })),
)

wake_slot-LastReady :
    (target : ℕ) (w : Waking) (i : ℕ) → LastReady w → LastReady (wake_slot target w i)
unfolding wake_slot
wake_slot-LastReady target w i h =
    elim (Bool-cases (w.conts.futex_addrs i == 0 || not (w.conts.futex_addrs i == target))) [
      | inl e ↦ rw e h
      | inr e ↦ rw e (wake_waiter-LastReady w i (w.conts.futex_conts i) h)
    ]

wake_slots-LastReady :
    (target max_wake n i : ℕ) (w : Waking)
    → LastReady w
    → LastReady (wake_slots target max_wake n i w)
unfolding wake_slots
wake_slots-LastReady target max_wake zero i w h = h
wake_slots-LastReady target max_wake (suc n) i w h = elim (Bool-cases (leb max_wake w.woken)) [
  | inl e ↦ rw e h
  | inr e ↦ rw e (
      wake_slots-LastReady target max_wake n (suc i) (wake_slot target w i)
        (wake_slot-LastReady target w i h))
]

-- After a wake either none was woken, or the pending continuation is ready.
finished :
    (w : Waking)
    → LastReady w
    → (w.woken ≡ 0)
      ⊎ ((c : ℕ) × ((finish_wake w).1.cont_pending ≡ some c)
          × (state_of (finish_wake w).1 c ≡ c_ready))
finished w (inl (e, _)) = inl e
finished w (inr (c, e, r)) =
    let k : Counters = record w.conts.counters {
      futex_waiters = dec w.conts.counters.futex_waiters w.woken;
    } in
    let st : (Option ℕ → Conts) = λ o. set_pending o (record w.conts { counters = k }) in
    inr (
      c,
      ap (λ (o : Option ℕ). (st o).cont_pending) e,
      ap (λ (o : Option ℕ). state_of (st o) c) e ∙ r,
    )

woken_found :
    (st : Conts) (c : ℕ)
    → st.cont_pending ≡ some c
    → state_of st c ≡ c_ready
    → drain_resolve_ready st ≡ some c
unfolding drain_resolve_ready resolve_from
woken_found st c e r =
    ap (resolve_from st) e
    ∙ ap
        (λ (l : Lifecycle).
          if is_resumable l then some c else scan_pool is_resumable st max_continuations 0)
        r

all_waiters :
    (n k : ℕ)
    → k ≤ max_futex_waiters
    → min (if n == i32_max then max_futex_waiters else n) k ≡ min n k
all_waiters n k h = elim (Bool-cases (n == i32_max)) [
  | inl e ↦ let q : n ≡ i32_max = (==_iff n i32_max).0 e in rw e (omega arith)
  | inr e ↦ rw e refl
]

-- The next that the drain resumes is ready.
abbrev pub NextIsReady : Conts → Type 0
NextIsReady st = (c : ℕ) × (drain_resolve_ready st ≡ some c) × (state_of st c ≡ c_ready)

wake_up_to_lem :
    (st : Conts) (target m : ℕ)
    → ((wake_up_to st target m).0 ≡ min m (waiters st target))
      × ((min m (waiters st target) ≡ 0) ⊎ NextIsReady (wake_up_to st target m).1)
unfolding wake_up_to waiters
wake_up_to_lem st target m =
    let w : Waking = wake_slots target m max_futex_waiters 0 (waking st) in
    let woken : w.woken ≡ min m (waiters st target) =
      omega (arith, wake_slots_woken target m max_futex_waiters 0 (waking st)) in
    (
      woken,
      elim (finished w
          (wake_slots-LastReady target m max_futex_waiters 0 (waking st) (inl (refl, refl)))) [
            | inl e ↦ inl (sym woken ∙ e)
            | inr (c, e, r) ↦ inr (c, woken_found (finish_wake w).1 c e r, r)
          ],
    )

-- A wake of up to n waiters, n from 0 to `i32::MAX`, which stands for all, returns how many it
-- woke: n, or all that wait at the address if they are fewer. If it woke any, one of them is
-- what the drain resumes next.
pub cont_futex_wake_lem :
    (st : Conts) (target n : ℕ)
    → ((cont_futex_wake st target (pos n)).0 ≡ pos (min n (waiters st target)))
      × ((min n (waiters st target) ≡ 0) ⊎ NextIsReady (cont_futex_wake st target (pos n)).1)
unfolding cont_futex_wake
cont_futex_wake_lem st target zero = (ground arith, inl (omega arith))
cont_futex_wake_lem st target (suc n) =
    let m : ℕ = if suc n == i32_max then max_futex_waiters else suc n in
    let same = all_waiters (suc n) (waiters st target) (waiters-le st target) in
    let (woken, next) = wake_up_to_lem st target m in
    (ap pos (woken ∙ same), elim next [ inl e ↦ inl (sym same ∙ e) | inr r ↦ inr r ])
