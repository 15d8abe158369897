-- ===== src/Errno/Results.antt =====
-- Error numbers in the results of system calls.
use hermit_kernel.Base.{ℕ, ◌<◌, ◌≡◌, refl, none, some, arith}
use hermit_kernel.Base.Int.{ℤ, pos, neg_ℕ}
use hermit_kernel.Errno.{
  Errno, code, of_code, failure, to_errno_i32, to_errno_i64, to_errno_errno, set_errno,
}

of_code-code : (e : Errno) → of_code (code e) ≡ some e
unfolding of_code code
of_code-code Errno.perm = refl
of_code-code _ = refl

code_range : (e : Errno) → (0 < code e) × (code e < 134)
unfolding code
code_range Errno.perm = omega arith
code_range _ = omega arith

negative_i32 : (n : ℕ) → 0 < n → n < 134 → to_errno_i32 (neg_ℕ n) ≡ some (pos n)
unfolding to_errno_i32
negative_i32 n h k = ground arith

negative_i64 : (n : ℕ) → 0 < n → n < 134 → to_errno_i64 (neg_ℕ n) ≡ some (some (pos n))
unfolding to_errno_i64
negative_i64 n h k = ground arith

-- A system call that fails with an error number stores just this number as the error of the thread,
-- whether its result is an `i32`, an `i64` (without a panic) or the error number itself; and the
-- number stands for this error alone.
pub failure_sets_errno :
    (e : Errno) (errno : ℤ)
    → (set_errno (to_errno_i32 (failure e)) errno ≡ pos (code e))
      × (to_errno_i64 (failure e) ≡ some (some (pos (code e))))
      × (set_errno (to_errno_errno e) errno ≡ pos (code e))
      × (of_code (code e) ≡ some e)
unfolding set_errno to_errno_errno
failure_sets_errno e errno =
    let (low, high) = code_range e in
    (rw (negative_i32 (code e) low high), negative_i64 (code e) low high, refl, of_code-code e)

-- A result that is not negative leaves the error of the thread alone.
pub success_keeps_errno :
    (n : ℕ) (errno : ℤ)
    → (set_errno (to_errno_i32 (pos n)) errno ≡ errno) × (to_errno_i64 (pos n) ≡ some none)
unfolding set_errno to_errno_i32 to_errno_i64
success_keeps_errno n errno = (refl, refl)
