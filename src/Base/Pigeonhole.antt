-- ===== src/Base/Pigeonhole.antt =====
-- An injective function on the numbers below a bound.
use Prim.Native.Nat.{ℕ, zero, suc, ◌≤◌, ◌<◌}
use mathlib.Core.Path.{◌≡◌}
use mathlib.Core.Logic.{◌≢◌, ◌⊎◌, inl, inr}
use native.Mathlib.Omega.{arith}
use native.Mathlib.Decide.{ℕ_discrete}
use hermit_kernel.Base.Tests.{◌==◌, if◌then◌else◌}

abbrev pub IsInjectiveBelow : ℕ → (ℕ → ℕ) → Type 0
IsInjectiveBelow t f = (j k : ℕ) → j < t → k < t → f j ≡ f k → j ≡ k

-- Whether a function takes a value below an argument.
find : (f : ℕ → ℕ) (v t : ℕ) → ((k : ℕ) × (k < t) × (f k ≡ v)) ⊎ ((k : ℕ) → k < t → f k ≢ v)
find f v zero = inr (λ k h. absurd (omega arith))
find f v (suc t) = elim (find f v t) [
  | inl (k, h, e) ↦ inl (k, omega arith, e)
  | inr missing ↦ elim (ℕ_discrete (f t) v) [
    | yes e ↦ inl (t, omega arith, e)
    | no n ↦
        inr (λ k h e. elim (ℕ_discrete k t) [ yes q ↦ n (cc) | no q ↦ missing k (omega arith) e ])
  ]
]

-- The values of a function with the last argument moved to a gap.
moved : (ℕ → ℕ) → ℕ → ℕ → ℕ → ℕ
moved f gap t k = if k == gap then f t else f k

moved_injective :
    (f : ℕ → ℕ) (gap t : ℕ)
    → gap < suc t
    → IsInjectiveBelow (suc t) f
    → IsInjectiveBelow t (moved f gap t)
unfolding moved
moved_injective f gap t g inj j k hj hk e = ground (arith, inj j k, inj t k, inj j t)

-- An injective function into the numbers below a bound has at most that many arguments.
pub pigeonhole : (n t : ℕ) (f : ℕ → ℕ) → IsInjectiveBelow t f → ((k : ℕ) → k < t → f k < n) → t ≤ n
unfolding moved
pigeonhole n zero f inj below = omega arith
pigeonhole zero (suc t) f inj below = absurd (omega (arith, below t (omega arith)))
pigeonhole (suc n) (suc t) f inj below = elim (find f n (suc t)) [
  | inl (gap, g, e) ↦ omega (
    arith,
    pigeonhole n t (moved f gap t) (moved_injective f gap t g inj)
        (λ k h. ground (arith, below k, below t, inj k gap, inj t gap)),
  )
  | inr missing ↦
      omega (arith, pigeonhole n (suc t) f inj (λ k h. ground (arith, below k, missing k)))
]
