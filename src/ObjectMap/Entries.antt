-- ===== src/ObjectMap/Entries.antt =====
-- New entries of the table of file descriptors: src/scheduler/mod.rs.
use hermit_kernel.Base.{
  ℕ, zero, suc, ◌+◌, ◌<◌, ◌≤◌, ◌≡◌, min, refl, ap, ◌∙◌, inl, inr, true, false, Option, none, some,
  fun_ext, arith,
}
use hermit_kernel.Base.Tests.{◌==◌, ==_refl, Bool-cases}
use hermit_kernel.Errno.{badf}
use hermit_kernel.File.{ok}
use hermit_kernel.ObjectMap.{
  Objects, max_fd, with_object, contains_key, new_fd, insert_object, get_object, ok_or, dup_object,
  dup_object2, removed, remove_object,
}

-- All descriptors from one up to another are taken.
abbrev pub AreTaken : Objects → ℕ → ℕ → Type 0
AreTaken m from to = (d : ℕ) → from ≤ d → d < to → contains_key (m d) ≡ true

new_fd_lem :
    (fuel fd n : ℕ) (m : Objects)
    → AreTaken m fd n
    → m n ≡ none
    → fd ≤ n
    → n ≤ max_fd
    → n < fd + fuel
    → new_fd fuel fd m ≡ ok n
unfolding new_fd
new_fd_lem zero fd n m t e l b f = absurd (omega arith)
new_fd_lem (suc fuel) fd n m t e l b f = elim (Bool-cases (fd == n)) [
  | inl s ↦ let same : fd ≡ n = ground arith in rw (same, e) refl
  | inr s ↦
      let less : fd < n = ground arith in
      let taken = t fd (omega arith) less in
      let not_last : (fd == max_fd) ≡ false = ground arith in
      let step : min (fd + 1) max_fd ≡ fd + 1 = omega arith in
      rw (taken, not_last, step)
        (new_fd_lem fuel (fd + 1) n m (λ d h k. t d (omega arith) k) e (omega arith) b
          (omega arith))
]

own : (m : Objects) (n : ℕ) (o : Option ℕ) → with_object m n o n ≡ o
own m n o = rw (==_refl n) refl

restored : (m : Objects) (n o : ℕ) → m n ≡ none → with_object (with_object m n (some o)) n none ≡ m
restored m n o e = fun_ext same
  where
    same : (d : ℕ) → with_object (with_object m n (some o)) n none d ≡ m d
    same d = elim (Bool-cases (d == n)) [
      | inl s ↦ let there : d ≡ n = ground arith in rw (s, there, e) refl
      | inr s ↦ rw s refl
    ]

-- If n is the least descriptor that is free, it is the one that inserting an object and duplicating
-- an entry return, with enough fuel, and that dup_object2 can be asked for. It then stands for that
-- object, every other descriptor stands for what it did, and removing the entry gives the object
-- and the table of before back.
pub insert_object_lem :
    (fuel n o fd old d : ℕ) (m : Objects)
    → AreTaken m 0 n
    → m n ≡ none
    → n ≤ max_fd
    → n < fuel
    → m fd ≡ some old
    → (d == n) ≡ false
    → (insert_object fuel m o ≡ ok (n, with_object m n (some o)))
      × (dup_object fuel m fd ≡ ok (n, with_object m n (some old)))
      × (dup_object2 m fd n ≡ ok (n, with_object m n (some old)))
      × (get_object (with_object m n (some o)) n ≡ ok o)
      × (get_object (with_object m n (some o)) d ≡ get_object m d)
      × (remove_object (with_object m n (some o)) n ≡ ok (o, m))
unfolding insert_object dup_object dup_object2 get_object remove_object
insert_object_lem fuel n o fd old d m t e b f g other =
    let found = new_fd_lem fuel 0 n m t e (omega arith) b (omega (arith, f)) in
    let here : with_object m n (some o) n ≡ some o = own m n (some o) in
    (
      rw found refl,
      rw (g, found, e) refl,
      rw (g, e) refl,
      ap (ok_or badf) here,
      rw other refl,
      ap (removed (with_object m n (some o)) n) here ∙ ap (λ z. ok (o, z)) (restored m n o e),
    )
