-- ===== src/Continuation/FutexTable/Table.antt =====
-- The table of waiters: src/arch/aarch64/kernel/continuations.rs, register_futex_wait,
-- clear_futex_slot, cont_futex_wait and cont_futex_wake.
use hermit_kernel.Base.{
  ℕ, zero, suc, ◌+◌, ◌≤◌, ◌<◌, ◌≡◌, ◌≢◌, ◌⊎◌, inl, inr, refl, ap, sym, Bool, true, false, not, none,
  some, arith, ℕ_discrete,
}
use hermit_kernel.Base.Tests.{◌==◌, ltb, Bool-cases}
use hermit_kernel.Continuation.{Conts, write}
use hermit_kernel.Continuation.Pool.{dec}
use hermit_kernel.Continuation.Switch.Effects.{write_self, write_ne}
use hermit_kernel.Continuation.Drain.{is_some}
use hermit_kernel.Continuation.FutexTable.{
  max_futex_waiters, empty_slot, fill_slot, register_futex_wait, clear_futex_slot,
}
use hermit_kernel.Continuation.FutexTable.Slots.{
  count, count-le, count_same, bit, is_taken, IsLinked, SameSlot,
}

-- How many slots are taken.
unfoldable pub taken : Conts → ℕ
unfolding count
taken st = count (is_taken st) max_futex_waiters 0

-- The counter is the number of taken slots, and each of them names a continuation.
pub record IsTable (st : Conts) : Type 0 where
  pub counted : st.counters.futex_waiters ≡ taken st
  pub linked : (j : ℕ) → IsLinked st j

pub taken-le : (st : Conts) → taken st ≤ max_futex_waiters
unfolding taken
taken-le st = count-le (is_taken st) max_futex_waiters 0

-- A test that changes at one place.
pub count_change :
    (f g : ℕ → Bool) (n i k : ℕ)
    → ((j : ℕ) → j ≢ k → f j ≡ g j)
    → i ≤ k
    → k < n + i
    → count g n i + bit (f k) ≡ count f n i + bit (g k)
unfolding count
count_change f g zero i k same l h = absurd (omega arith)
count_change f g (suc n) i k same l h = elim (ℕ_discrete i k) [
  | yes e ↦ rw e (
      rw (count_same f g n (suc k) (λ j q. same j (λ (p : j ≡ k). absurd (omega arith))))
        (omega arith))
  | no e ↦
      rw (same i e) (omega (arith, count_change f g n (suc i) k same (omega arith) (omega arith)))
]

-- The slot that a registration takes: it is free, or there is none.
pub empty_slot_lem :
    (addrs : ℕ → ℕ) (n i : ℕ)
    → (i ≤ empty_slot addrs n i)
      × (empty_slot addrs n i ≤ n + i)
      × ((addrs (empty_slot addrs n i) ≡ 0) ⊎ (empty_slot addrs n i ≡ n + i))
unfolding empty_slot
empty_slot_lem addrs zero i = ground arith
empty_slot_lem addrs (suc n) i = ground (arith, empty_slot_lem addrs n (suc i))

-- If no slot is free, all are taken.
pub empty_slot_full :
    (st : Conts) (n i : ℕ) → empty_slot st.futex_addrs n i ≡ n + i → count (is_taken st) n i ≡ n
unfolding empty_slot count
empty_slot_full st zero i e = refl
empty_slot_full st (suc n) i e = ground (arith, empty_slot_full st n (suc i))

-- A table that differs in one slot.
taken_change :
    (st st' : Conts) (i : ℕ)
    → ((j : ℕ) → j ≢ i → SameSlot st st' j)
    → i < max_futex_waiters
    → taken st' + bit (is_taken st i) ≡ taken st + bit (is_taken st' i)
unfolding taken
taken_change st st' i same l =
    count_change (is_taken st) (is_taken st') max_futex_waiters 0 i
      (λ j q. ap (λ (a : ℕ). not (a == 0)) (sym ((same j q).0))) (omega arith) (omega arith)

IsLinked-change :
    (st st' : Conts) (i : ℕ)
    → ((j : ℕ) → j ≢ i → SameSlot st st' j)
    → IsLinked st' i
    → ((j : ℕ) → IsLinked st j)
    → (j : ℕ) → IsLinked st' j
IsLinked-change st st' i same h linked j = elim (ℕ_discrete j i) [
  | yes q ↦ rw q h
  | no q ↦ let (a, c) = same j q in rw (a, c) (linked j)
]

pub filled :
    (st : Conts) (i addr c : ℕ)
    → IsTable st
    → st.futex_addrs i ≡ 0
    → i < max_futex_waiters
    → addr ≢ 0
    → IsTable (fill_slot st i addr c)
unfolding fill_slot
filled st i addr c t e l n =
    let st' : Conts = fill_slot st i addr c in
    let same : ((j : ℕ) → j ≢ i → SameSlot st st' j) =
      λ j q. (write_ne st.futex_addrs i j addr q, write_ne st.futex_conts i j (some c) q) in
    let now : is_taken st' i ≡ true = ground arith in
    let before : is_taken st i ≡ false = ground arith in
    record {
      counted =
          omega (
            arith,
            t.counted,
            taken-le st,
            taken_change st st' i same l,
            ap bit now,
            ap bit before,
          );
      linked =
          IsLinked-change st st' i same (inr (ap is_some (write_self st.futex_conts i (some c))))
            t.linked;
    }

abbrev emptied : Conts → ℕ → Conts
emptied st i = record st {
  futex_addrs = write st.futex_addrs i 0;
  futex_conts = write st.futex_conts i none;
  counters = record st.counters { futex_waiters = dec st.counters.futex_waiters 1 };
}

cleared :
    (st : Conts) (i : ℕ)
    → IsTable st
    → is_taken st i ≡ true
    → i < max_futex_waiters
    → IsTable (emptied st i)
cleared st i t before l =
    let st' : Conts = emptied st i in
    let same : ((j : ℕ) → j ≢ i → SameSlot st st' j) =
      λ j q. (write_ne st.futex_addrs i j 0 q, write_ne st.futex_conts i j none q) in
    let now : is_taken st' i ≡ false =
      ap (λ (a : ℕ). not (a == 0)) (write_self st.futex_addrs i 0) in
    record {
      counted =
          omega (
            arith,
            t.counted,
            taken-le st,
            taken_change st st' i same l,
            ap bit now,
            ap bit before,
          );
      linked = IsLinked-change st st' i same (inl now) t.linked;
    }

-- A registration keeps the table well formed: it takes a free slot, or the table is full and stays
-- as it is.
pub register_futex_wait-IsTable :
    (st : Conts) (addr c : ℕ) → IsTable st → addr ≢ 0 → IsTable (register_futex_wait st addr c).1
unfolding register_futex_wait
register_futex_wait-IsTable st addr c t n =
    let i : ℕ = empty_slot st.futex_addrs max_futex_waiters 0 in
    let (_, _, free) = empty_slot_lem st.futex_addrs max_futex_waiters 0 in
    elim (Bool-cases (ltb i max_futex_waiters)) [
      | inl e ↦ rw e (filled st i addr c t (ground arith) (ground arith) n)
      | inr e ↦ rw e t
    ]

-- Clearing a slot keeps the table well formed, whether the slot was taken or not.
pub clear_futex_slot-IsTable : (st : Conts) (i : ℕ) → IsTable st → IsTable (clear_futex_slot st i)
unfolding clear_futex_slot
clear_futex_slot-IsTable st i t = elim (Bool-cases (ltb i max_futex_waiters)) [
  | inr e ↦ rw e t
  | inl e ↦ elim (Bool-cases (st.futex_addrs i == 0)) [
    | inl z ↦ rw (e, z) t
    | inr z ↦ rw (e, z) (cleared st i t (ground arith) (ground arith))
  ]
]
