-- ===== src/Base/Bits.antt =====
-- Binary digits of a machine word: `|= 1 << i`, `&= !(1 << i)` and `leading_zeros` of a `u64`.
use Prim.Native.Nat.{
  ℕ, zero, suc, ◌+◌, ◌-◌, ◌*◌, ◌/◌, ◌%◌, ◌^◌, ◌≤◌, ◌<◌, min, max, bit_and, bit_or, bit_xor, digits,
  differ, bit_and-bitwise, bit_or-bitwise, bit_xor-bitwise,
}
use mathlib.Core.Path.{◌≡◌, refl, ◌∙◌}
use mathlib.Core.Logic.{inl, inr}
use native.Mathlib.Omega.{arith}
use native.Mathlib.Nat.{pow-suc, one-le-pow}
use hermit_kernel.Base.Tests.{◌==◌, if◌then◌else◌, Bool-cases}

-- Digit `i` of a number, the lowest first.
unfoldable pub bit : ℕ → ℕ → ℕ
bit zero n = n % 2
bit (suc i) n = bit i (n / 2)

pub bit-le-one : (i n : ℕ) → bit i n ≤ 1
unfolding bit
bit-le-one zero n = omega arith
bit-le-one (suc i) n = bit-le-one i (n / 2)

pub bit-zero : (i : ℕ) → bit i 0 ≡ 0
unfolding bit
bit-zero zero = refl
bit-zero (suc i) = bit-zero i

-- A number with no digit set is zero.
eq-zero_fuel : (k n : ℕ) → n ≤ k → ((i : ℕ) → bit i n ≡ 0) → n ≡ 0
unfolding bit
eq-zero_fuel zero n h z = omega arith
eq-zero_fuel (suc k) n h z =
    omega (arith, eq-zero_fuel k (n / 2) (omega (arith, z 0)) (λ i. z (suc i)), z 0)

pub eq-zero_of_bits : (n : ℕ) → ((i : ℕ) → bit i n ≡ 0) → n ≡ 0
eq-zero_of_bits n = eq-zero_fuel n n (omega arith)

-- A digitwise operation acts on each digit alone.
module _ (z : ℕ → ℕ) (f : ℕ → ℕ → ℕ) (fits : (x y : ℕ) → x ≤ 1 → y ≤ 1 → f x y ≤ 1)
    (out : (i b : ℕ) → bit i (z b) ≡ f 0 (bit i b)) where
  bit-digits : (i n a b : ℕ) → a ≤ n → bit i (digits z f n a b) ≡ f (bit i a) (bit i b)
  unfolding bit
  bit-digits i zero zero b h = rw bit-zero (out i b)
  bit-digits i zero (suc a) b h = absurd (omega arith)
  bit-digits i (suc n) zero b h = rw bit-zero (out i b)
  bit-digits zero (suc n) (suc a) b h =
      omega (arith, fits (suc a % 2) (b % 2) (omega arith) (omega arith))
  bit-digits (suc i) (suc n) (suc a) b h =
      let r = fits (suc a % 2) (b % 2) (omega arith) (omega arith) in
      let d = digits z f n (suc a / 2) (b / 2) in
      let e : (d * 2 + f (suc a % 2) (b % 2)) / 2 ≡ d = omega arith in
      rw e (bit-digits i n (suc a / 2) (b / 2) (omega arith))

differ_fits : (x y : ℕ) → x ≤ 1 → y ≤ 1 → differ x y ≤ 1
differ_fits zero y p q = q
differ_fits (suc zero) zero p q = omega arith
differ_fits (suc zero) (suc zero) p q = omega arith
differ_fits (suc zero) (suc (suc y)) p q = absurd (omega arith)
differ_fits (suc (suc x)) y p q = absurd (omega arith)

pub bit-bit_or : (i a b : ℕ) → bit i (bit_or a b) ≡ max (bit i a) (bit i b)
bit-bit_or i a b =
    rw bit_or-bitwise
      (bit-digits (λ y. y) max (λ x y p q. omega arith) (λ i b. omega arith) i a a b (omega arith))

pub bit-bit_and : (i a b : ℕ) → bit i (bit_and a b) ≡ min (bit i a) (bit i b)
bit-bit_and i a b = rw bit_and-bitwise (
    bit-digits (λ y. 0) min (λ x y p q. omega arith) (λ i b. omega (arith, bit-zero i)) i a a b
      (omega arith))

pub bit-bit_xor : (i a b : ℕ) → bit i (bit_xor a b) ≡ differ (bit i a) (bit i b)
bit-bit_xor i a b =
    rw bit_xor-bitwise (bit-digits (λ y. y) differ differ_fits (λ i b. refl) i a a b (omega arith))

pub bit-pow : (i k : ℕ) → bit i (2 ^ k) ≡ (if i == k then 1 else 0)
unfolding bit
bit-pow zero zero = refl
bit-pow zero (suc k) = ground (arith, pow-suc 2 k)
bit-pow (suc i) zero = ground (arith, bit-zero i)
bit-pow (suc i) (suc k) =
    let e : 2 ^ suc k / 2 ≡ 2 ^ k = omega (arith, pow-suc 2 k) in rw e (bit-pow i k ∙ ground arith)

bit-ones : (i k : ℕ) → i < k → bit i (2 ^ k - 1) ≡ 1
unfolding bit
bit-ones i zero h = absurd (omega arith)
bit-ones zero (suc k) h = omega (arith, pow-suc 2 k, one-le-pow k 2)
bit-ones (suc i) (suc k) h =
    let e : (2 ^ suc k - 1) / 2 ≡ 2 ^ k - 1 = omega (arith, pow-suc 2 k, one-le-pow k 2) in
    rw e (bit-ones i k (omega arith))

-- `n |= 1 << i`
unfoldable pub set_bit : ℕ → ℕ → ℕ
set_bit n i = bit_or n (2 ^ i)

-- `!x` of a `u64`
abbrev not64 : ℕ → ℕ
not64 x = bit_xor x (2 ^ 64 - 1)

-- `n &= !(1 << i)`
unfoldable pub clear_bit : ℕ → ℕ → ℕ
clear_bit n i = bit_and n (not64 (2 ^ i))

pub bit-set_bit : (j n i : ℕ) → bit j (set_bit n i) ≡ (if j == i then 1 else bit j n)
unfolding set_bit
bit-set_bit j n i = ground (arith, bit-bit_or j n (2 ^ i), bit-pow j i, bit-le-one j n)

pub bit-clear_bit : (j n i : ℕ) → j < 64 → bit j (clear_bit n i) ≡ (if j == i then 0 else bit j n)
unfolding clear_bit
bit-clear_bit j n i h = ground (
  arith,
  bit-bit_and j n (not64 (2 ^ i)),
  bit-bit_xor j (2 ^ i) (2 ^ 64 - 1),
  bit-pow j i,
  bit-ones j 64 h,
  bit-le-one j n,
)

-- A digit that is not set stays so.
pub bit-clear_bit_zero : (j n i : ℕ) → bit j n ≡ 0 → bit j (clear_bit n i) ≡ 0
unfolding clear_bit
bit-clear_bit_zero j n i h = omega (arith, bit-bit_and j n (not64 (2 ^ i)))

-- `leading_zeros` of a word of `w` bits: how many of its high digits are 0.
unfoldable pub leading_zeros : ℕ → ℕ → ℕ
leading_zeros zero n = 0
leading_zeros (suc w) n = let rest = leading_zeros w n + 1 in if bit w n == 1 then 0 else rest

pub leading_zeros-le : (w n : ℕ) → leading_zeros w n ≤ w
unfolding leading_zeros
leading_zeros-le zero n = omega arith
leading_zeros-le (suc w) n = ground (arith, leading_zeros-le w n)

-- The digit below the leading zeros is set, and those above it are not.
pub leading_zeros_set : (w n i : ℕ) → i + leading_zeros w n + 1 ≡ w → bit i n ≡ 1
unfolding leading_zeros
leading_zeros_set zero n i h = absurd (omega arith)
leading_zeros_set (suc w) n i h = elim (Bool-cases (bit w n == 1)) [
  | inl e ↦ let k : i ≡ w = ground arith in rw k (ground arith)
  | inr e ↦ leading_zeros_set w n i (ground arith)
]

pub leading_zeros_clear : (w n i : ℕ) → i < w → w ≤ i + leading_zeros w n → bit i n ≡ 0
unfolding leading_zeros
leading_zeros_clear zero n i h l = absurd (omega arith)
leading_zeros_clear (suc w) n i h l = elim (Bool-cases (bit w n == 1)) [
  | inl e ↦ absurd (ground arith)
  | inr e ↦ elim (Bool-cases (i == w)) [
    | inl same ↦ let k : i ≡ w = ground arith in rw k (ground (arith, bit-le-one w n))
    | inr other ↦ leading_zeros_clear w n i (ground arith) (ground arith)
  ]
]
