-- ===== src/Task/Levels.antt =====
-- What the two priority queues of src/scheduler/task/mod.rs share: an array with one first-in
-- first-out level per priority, a word whose digit `i` says that level `i` is filled, and the order
-- in which the entries are served.
pub mod Priority
use hermit_kernel.Base.{
  ℕ, zero, suc, ◌+◌, ◌-◌, ◌≤◌, ◌<◌, ◌≡◌, refl, ap, ◌∙◌, ◌⊎◌, inl, inr, ◌≢◌, Bool, true, false,
  Option, none, some, List, [], ◌∷◌, ◌++◌, arith,
}
use hermit_kernel.Base.Tests.{◌==◌, ltb, if◌then◌else◌, Bool-cases}
use hermit_kernel.Base.Lists.{length, get_or, set, get_or-set_self, get_or-set_ne, get_or_out}
use hermit_kernel.Base.Bits.{
  bit, eq-zero_of_bits, set_bit, clear_bit, bit-set_bit, bit-clear_bit, bit-clear_bit_zero,
  leading_zeros, leading_zeros-le, leading_zeros_set, leading_zeros_clear,
}

-- `NO_PRIORITIES`
abbrev pub no_priorities : ℕ
no_priorities = 31

unfoldable pub msb : ℕ → Option ℕ
unfolding leading_zeros
msb n = if n == 0 then none else some (64 - 1 - leading_zeros 64 n)

-- No digit beyond the word's 64.
abbrev pub IsWord : ℕ → Type 0
IsWord n = (j : ℕ) → 64 ≤ j → bit j n ≡ 0

no_digit : (n j : ℕ) → IsWord n → leading_zeros 64 n ≡ 64 → bit j n ≡ 0
no_digit n j w h = elim (Bool-cases (ltb j 64)) [
  | inl e ↦ leading_zeros_clear 64 n j (ground arith) (omega arith)
  | inr e ↦ w j (ground arith)
]

some_digit : (n : ℕ) → IsWord n → n ≢ 0 → leading_zeros 64 n < 64
some_digit n w p = elim (Bool-cases (leading_zeros 64 n == 64)) [
  | inl e ↦ absurd (p (eq-zero_of_bits n (λ j. no_digit n j w (ground arith))))
  | inr e ↦ ground (arith, leading_zeros-le 64 n)
]

-- `msb` finds the highest digit that is set.
abbrev pub IsHighest : ℕ → ℕ → Type 0
IsHighest n i = (bit i n ≡ 1) × ((j : ℕ) → i < j → bit j n ≡ 0)

msb_above : (n i j : ℕ) → IsWord n → i + leading_zeros 64 n + 1 ≡ 64 → i < j → bit j n ≡ 0
msb_above n i j w h l = elim (Bool-cases (ltb j 64)) [
  | inl e ↦ leading_zeros_clear 64 n j (ground arith) (omega arith)
  | inr e ↦ w j (ground arith)
]

pub msb-IsHighest :
    (n : ℕ) → IsWord n → ((n ≡ 0) × (msb n ≡ none)) ⊎ ((i : ℕ) × (msb n ≡ some i) × IsHighest n i)
unfolding msb
msb-IsHighest n w = elim (Bool-cases (n == 0)) [
  | inl e ↦ inl (ground arith, rw e)
  | inr e ↦
      let lz = leading_zeros 64 n in
      let at : 64 - 1 - lz + lz + 1 ≡ 64 = omega (arith, some_digit n w (ground arith)) in
      inr (
        64 - 1 - lz,
        rw e,
        (leading_zeros_set 64 n (64 - 1 - lz) at, λ j l. msb_above n (64 - 1 - lz) j w at l),
      )
]

module _ {ℓ} {A : Type ℓ} where
  abbrev pub level : List (List A) → ℕ → List A
  level qs j = get_or qs j []

  abbrev pub filled : List A → ℕ
  filled [] = 0
  filled (x ∷ xs) = 1

  -- The word records which levels are filled.
  abbrev pub Records : ℕ → List (List A) → Type 0
  Records bitmap qs = (j : ℕ) → bit j bitmap ≡ filled (level qs j)

  -- The entries of the levels below `k`, highest level first, each level in its own order.
  unfoldable pub order : ℕ → List (List A) → List A
  order zero qs = []
  order (suc k) qs = level qs k ++ order k qs

  pub order-set_above :
      (k i : ℕ) (qs : List (List A)) (v : List A) → k ≤ i → order k (set qs i v) ≡ order k qs
  unfolding order
  order-set_above zero i qs v h = refl
  order-set_above (suc k) i qs v h =
      rw (get_or-set_ne qs i k v [] (omega arith), order-set_above k i qs v (omega arith))

  -- Taking the head of the highest filled level takes the head of the order.
  pub order-take :
      (k i : ℕ) (qs : List (List A)) (h : A) (r : List A)
      → i < k
      → i < length qs
      → level qs i ≡ h ∷ r
      → ((j : ℕ) → i < j → level qs j ≡ [])
      → order k qs ≡ h ∷ order k (set qs i r)
  unfolding order
  order-take zero i qs h r l b e above = absurd (omega arith)
  order-take (suc k) i qs h r l b e above = elim (Bool-cases (i == k)) [
    | inl same ↦
        let s : k ≡ i = ground arith in
        rw (s, e, get_or-set_self qs i r [] b, order-set_above i i qs r (omega arith))
    | inr other ↦
        rw
          (above k (ground arith), get_or-set_ne qs i k r [] (ground arith), above k (ground arith))
          (order-take k i qs h r (ground arith) b e above)
  ]

  pub order-none : (k : ℕ) (qs : List (List A)) → ((j : ℕ) → level qs j ≡ []) → order k qs ≡ []
  unfolding order
  order-none zero qs h = refl
  order-none (suc k) qs h = rw (h k) (order-none k qs h)

  pub filled_le : (xs : List A) → filled xs ≤ 1
  filled_le [] = omega arith
  filled_le (x ∷ xs) = omega arith

  filled-append : (xs : List A) (a : A) → filled (xs ++ a ∷ []) ≡ 1
  filled-append [] a = refl
  filled-append (x ∷ xs) a = refl

  abbrev pub is_empty : List A → Bool
  is_empty [] = true
  is_empty (x ∷ xs) = false

  pub empty_of_filled : (xs : List A) → filled xs ≡ 0 → xs ≡ []
  empty_of_filled [] h = refl
  empty_of_filled (x ∷ xs) h = absurd (omega arith)

  pub cons_of_filled : (xs : List A) → filled xs ≡ 1 → (h : A) × (r : List A) × (xs ≡ h ∷ r)
  cons_of_filled [] h = absurd (omega arith)
  cons_of_filled (x ∷ xs) h = (x, xs, refl)

  pub Records-IsWord :
      (bitmap : ℕ) (qs : List (List A))
      → length qs ≡ no_priorities
      → Records bitmap qs
      → IsWord bitmap
  Records-IsWord bitmap qs n h j l = h j ∙ ap filled (get_or_out qs j [] (omega arith))

  -- A level that is written is recorded by setting or clearing its digit.
  pub Records-set_bit :
      (bitmap : ℕ) (qs : List (List A)) (i : ℕ) (xs : List A) (a : A)
      → i < length qs
      → Records bitmap qs
      → Records (set_bit bitmap i) (set qs i (xs ++ a ∷ []))
  Records-set_bit bitmap qs i xs a l h j = elim (Bool-cases (j == i)) [
    | inl same ↦
        let s : j ≡ i = ground arith in
        ground (
          arith,
          bit-set_bit j bitmap i,
          ap (λ k. filled (level (set qs i (xs ++ a ∷ [])) k)) s,
          ap filled (get_or-set_self qs i (xs ++ a ∷ []) [] l),
          filled-append xs a,
        )
    | inr other ↦ ground (
      arith,
      bit-set_bit j bitmap i,
      h j,
      ap filled (get_or-set_ne qs i j (xs ++ a ∷ []) [] (ground arith)),
    )
  ]

  -- A level that is cut down is recorded by clearing its digit if nothing is left.
  pub Records-clear_bit :
      (bitmap : ℕ) (qs : List (List A)) (i : ℕ) (r : List A)
      → length qs ≡ no_priorities
      → i < no_priorities
      → filled r ≤ filled (level qs i)
      → Records bitmap qs
      → Records (if is_empty r then clear_bit bitmap i else bitmap) (set qs i r)
  Records-clear_bit bitmap qs i r n l f h j = elim (Bool-cases (j == i)) [
    | inl same ↦
        let s : j ≡ i = ground arith in
        let here = get_or-set_self qs i r [] (omega arith) in rw (s, here) (cut r f here)
    | inr other ↦ rw (get_or-set_ne qs i j r [] (ground arith)) (left r (ground arith))
  ]
    where
      cut :
          (r : List A)
          → filled r ≤ filled (level qs i)
          → level (set qs i r) i ≡ r
          → bit i (if is_empty r then clear_bit bitmap i else bitmap) ≡ filled r
      cut [] f e = ground (arith, bit-clear_bit i bitmap i)
      cut (x ∷ xs) f e = ground (arith, h i, filled_le (level qs i))

      left :
          (r : List A)
          → j ≢ i
          → bit j (if is_empty r then clear_bit bitmap i else bitmap) ≡ filled (level qs j)
      left [] ne = elim (Bool-cases (ltb j 64)) [
        | inl small ↦ ground (arith, h j, bit-clear_bit j bitmap i)
        | inr large ↦ ground (
          arith,
          h j,
          ap filled (get_or_out qs j [] (ground arith)),
          bit-clear_bit_zero j bitmap i,
        )
      ]
      left (x ∷ xs) ne = h j
