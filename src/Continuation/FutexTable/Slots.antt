-- ===== src/Continuation/FutexTable/Slots.antt =====
-- How many wait: src/arch/aarch64/kernel/continuations.rs, the loop of cont_futex_wake.
use hermit_kernel.Base.{
  ℕ, zero, suc, ◌+◌, ◌-◌, ◌≤◌, ◌<◌, ◌≡◌, ◌≢◌, ◌⊎◌, inl, inr, refl, ap, ◌∙◌, sym, min, Bool, true,
  false, not, ◌&&◌, Option, none, some, arith, ℕ_discrete,
}
use hermit_kernel.Base.Tests.{◌==◌, leb, if◌then◌else◌, Bool-cases, Option-cases}
use hermit_kernel.Continuation.{Conts}
use hermit_kernel.Continuation.Drain.{is_some}
use hermit_kernel.Continuation.FutexTable.{Waking, wake_waiter, wake_slot, wake_slots}

-- How many of `n` numbers from `i` on pass a test.
unfoldable pub count : (ℕ → Bool) → ℕ → ℕ → ℕ
count test zero i = 0
count test (suc n) i = (if test i then 1 else 0) + count test n (suc i)

pub count-le : (test : ℕ → Bool) (n i : ℕ) → count test n i ≤ n
unfolding count
count-le test zero i = omega arith
count-le test (suc n) i = ground (arith, count-le test n (suc i))

pub count_same :
    (f g : ℕ → Bool) (n i : ℕ) → ((j : ℕ) → i ≤ j → f j ≡ g j) → count f n i ≡ count g n i
unfolding count
count_same f g zero i h = refl
count_same f g (suc n) i h =
    rw (h i (omega arith), count_same f g n (suc i) (λ j l. h j (omega arith))) refl

-- A slot is taken; and by a waiter at an address.
abbrev pub is_taken : Conts → ℕ → Bool
is_taken st j = not (st.futex_addrs j == 0)

abbrev pub is_waiter : Conts → ℕ → ℕ → Bool
is_waiter st target j = is_taken st j && (st.futex_addrs j == target) && is_some (st.futex_conts j)

-- Two tables have the same slot.
abbrev pub SameSlot : Conts → Conts → ℕ → Type 0
SameSlot st st' j = (st'.futex_addrs j ≡ st.futex_addrs j) × (st'.futex_conts j ≡ st.futex_conts j)

wake_waiter_frame :
    (w : Waking) (i j : ℕ) (o : Option ℕ) → j ≢ i → SameSlot w.conts (wake_waiter w i o).conts j
unfolding wake_waiter
wake_waiter_frame w i j none n = ground arith
wake_waiter_frame w i j (some c) n = ground arith

wake_slot_frame :
    (target : ℕ) (w : Waking) (i j : ℕ) → j ≢ i → SameSlot w.conts (wake_slot target w i).conts j
unfolding wake_slot
wake_slot_frame target w i j n = ground (arith, wake_waiter_frame w i j (w.conts.futex_conts i))

wake_slots_frame :
    (target max_wake n i : ℕ) (w : Waking) (j : ℕ)
    → j < i
    → SameSlot w.conts (wake_slots target max_wake n i w).conts j
unfolding wake_slots
wake_slots_frame target max_wake zero i w j l = (refl, refl)
wake_slots_frame target max_wake (suc n) i w j l = ground (
  arith,
  wake_slots_frame target max_wake n (suc i) (wake_slot target w i) j,
  wake_slot_frame target w i j,
)

abbrev pub bit : Bool → ℕ
bit b = if b then 1 else 0

-- A slot that is taken names a record.
abbrev pub IsLinked : Conts → ℕ → Type 0
IsLinked st j = (is_taken st j ≡ false) ⊎ (is_some (st.futex_conts j) ≡ true)

wake_slot_taken :
    (target : ℕ) (w : Waking) (i : ℕ)
    → IsLinked w.conts i
    → (bit (is_taken w.conts i)
        ≡ bit (is_taken (wake_slot target w i).conts i) + bit (is_waiter w.conts target i))
      × IsLinked (wake_slot target w i).conts i
unfolding wake_slot wake_waiter
wake_slot_taken target w i h = elim (Option-cases (w.conts.futex_conts i)) [
  | inl e ↦ ground arith
  | inr (c, e) ↦ ground arith
]

-- What waking one slot does to the count and to the slot.
record WakesSlot (target : ℕ) (w w' : Waking) (i : ℕ) : Type 0 where
  woken : w'.woken ≡ w.woken + (if is_waiter w.conts target i then 1 else 0)
  cleared : is_waiter w'.conts target i ≡ false

wake_slot-WakesSlot :
    (target : ℕ) (w : Waking) (i : ℕ) → WakesSlot target w (wake_slot target w i) i
unfolding wake_slot wake_waiter
wake_slot-WakesSlot target w i = elim (Option-cases (w.conts.futex_conts i)) [
  | inl e ↦ ground arith
  | inr (c, e) ↦ ground arith
]

-- The waiters behind a slot are still there when it was looked at.
later_waiters :
    (target : ℕ) (w : Waking) (n i : ℕ)
    → count (is_waiter (wake_slot target w i).conts target) n (suc i)
      ≡ count (is_waiter w.conts target) n (suc i)
later_waiters target w n i =
    count_same _ _ n (suc i)
      λ j l. let (a, c) = wake_slot_frame target w i j (omega arith) in rw (a, c) refl

pub wake_slots_woken :
    (target max_wake n i : ℕ) (w : Waking)
    → (wake_slots target max_wake n i w).woken
      ≡ w.woken + min (max_wake - w.woken) (count (is_waiter w.conts target) n i)
unfolding wake_slots count
wake_slots_woken target max_wake zero i w = omega arith
wake_slots_woken target max_wake (suc n) i w = ground (
  arith,
  wake_slots_woken target max_wake n (suc i) (wake_slot target w i),
  later_waiters target w n i,
  wake_slot-WakesSlot target w i,
)

IsLinked-after_slot :
    (target : ℕ) (w : Waking) (i : ℕ)
    → ((j : ℕ) → IsLinked w.conts j)
    → (j : ℕ) → IsLinked (wake_slot target w i).conts j
IsLinked-after_slot target w i h j = elim (ℕ_discrete j i) [
  | yes e ↦ rw e ((wake_slot_taken target w i (h i)).1)
  | no n ↦ let (a, c) = wake_slot_frame target w i j n in rw (a, c) (h j)
]

pub wake_slots-IsLinked :
    (target max_wake n i : ℕ) (w : Waking)
    → ((j : ℕ) → IsLinked w.conts j)
    → (j : ℕ) → IsLinked (wake_slots target max_wake n i w).conts j
unfolding wake_slots
wake_slots-IsLinked target max_wake zero i w h j = h j
wake_slots-IsLinked target max_wake (suc n) i w h j = elim (Bool-cases (leb max_wake w.woken)) [
  | inl e ↦ rw e (h j)
  | inr e ↦ rw e (
      wake_slots-IsLinked target max_wake n (suc i) (wake_slot target w i)
        (IsLinked-after_slot target w i h) j)
]

later_taken :
    (target : ℕ) (w : Waking) (n i : ℕ)
    → count (is_taken (wake_slot target w i).conts) n (suc i) ≡ count (is_taken w.conts) n (suc i)
later_taken target w n i =
    count_same _ _ n (suc i)
      λ j l. let (a, c) = wake_slot_frame target w i j (omega arith) in rw a refl

same_taken :
    (target max_wake n i : ℕ) (w : Waking)
    → bit (is_taken (wake_slots target max_wake n (suc i) (wake_slot target w i)).conts i)
      ≡ bit (is_taken (wake_slot target w i).conts i)
same_taken target max_wake n i w =
    let (a, _) =
      wake_slots_frame target max_wake n (suc i) (wake_slot target w i) i (omega arith) in
    rw a refl

wake_slots_stop :
    (target max_wake n i : ℕ) (w : Waking)
    → leb max_wake w.woken ≡ true
    → wake_slots target max_wake n i w ≡ w
unfolding wake_slots
wake_slots_stop target max_wake zero i w e = refl
wake_slots_stop target max_wake (suc n) i w e = rw e refl

wake_slots_go :
    (target max_wake n i : ℕ) (w : Waking)
    → leb max_wake w.woken ≡ false
    → wake_slots target max_wake (suc n) i w
      ≡ wake_slots target max_wake n (suc i) (wake_slot target w i)
unfolding wake_slots
wake_slots_go target max_wake n i w e = rw e refl

-- The slots from `i` on after a wake: the waiters that were woken gave back theirs.
pub wake_slots_taken :
    (target max_wake n i : ℕ) (w : Waking)
    → ((j : ℕ) → IsLinked w.conts j)
    → count (is_taken w.conts) n i + w.woken
      ≡ count (is_taken (wake_slots target max_wake n i w).conts) n i
        + (wake_slots target max_wake n i w).woken
unfolding count
wake_slots_taken target max_wake zero i w h = unfold wake_slots in refl
wake_slots_taken target max_wake (suc n) i w h =
    let left : (Waking → ℕ) = λ r. count (is_taken r.conts) (suc n) i + r.woken in
    elim (Bool-cases (leb max_wake w.woken)) [
      | inl e ↦ ap left (sym (wake_slots_stop target max_wake (suc n) i w e))
      | inr e ↦
          let w' : Waking = wake_slot target w i in
          let (given, _) = wake_slot_taken target w i (h i) in
          let step = wake_slot-WakesSlot target w i in
          omega (
            arith,
            wake_slots_taken target max_wake n (suc i) w' (IsLinked-after_slot target w i h),
            later_taken target w n i,
            same_taken target max_wake n i w,
            given,
            step.woken,
          )
          ∙ ap left (sym (wake_slots_go target max_wake n i w e))
    ]
