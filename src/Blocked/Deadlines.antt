-- ===== src/Blocked/Deadlines.antt =====
-- The order of the deadlines in a queue of blocked tasks.
use hermit_kernel.Base.{
  ℕ, ◌<◌, ◌≡◌, refl, ap, sym, inl, inr, Bool, true, false, Option, none, some, List, [], ◌∷◌, ◌++◌,
  arith,
}
use hermit_kernel.Base.Tests.{leb, Bool-cases}
use mathlib.Core.Path.{subst}
use hermit_kernel.Base.Lists.{All}
use mathlib.Core.List.{append-nil}
use hermit_kernel.Timers.{not_set}
use hermit_kernel.Blocked.{
  BlockedTask, insert, place, goes_before, is_due, has_elapsed, due, not_due,
}

-- Whether a deadline is not after another one. No deadline is after all others.
abbrev pub no_later : Option ℕ → Option ℕ → Bool
no_later o none = true
no_later none (some b) = false
no_later (some a) (some b) = leb a b

abbrev pub NoLater : BlockedTask → BlockedTask → Type 0
NoLater x y = no_later x.wakeup_time y.wakeup_time ≡ true

abbrev pub IsOrdered : List BlockedTask → Type 0
IsOrdered [] = Unit
IsOrdered (x ∷ xs) = All (NoLater x) xs × IsOrdered xs

-- A deadline that a timer can be set for.
abbrev pub IsLegal : Option ℕ → Type 0
IsLegal none = Unit
IsLegal (some wt) = wt < not_set

abbrev pub AreLegal : List BlockedTask → Type 0
AreLegal xs = All (λ x. IsLegal (x.wakeup_time)) xs

pub All-append :
    (P : BlockedTask → Type 0) (xs ys : List BlockedTask) → All P xs → All P ys → All P (xs ++ ys)
All-append P [] ys h k = k
All-append P (x ∷ xs) ys h k = (h.0, All-append P xs ys h.1 k)

pub All-without :
    (P : BlockedTask → Type 0) (xs ys : List BlockedTask) (x : BlockedTask)
    → All P (xs ++ x ∷ ys)
    → All P (xs ++ ys)
All-without P [] ys x h = h.1
All-without P (z ∷ xs) ys x h = (h.0, All-without P xs ys x h.1)

pub All_map :
    (P Q : BlockedTask → Type 0) (xs : List BlockedTask)
    → ((x : BlockedTask) → P x → Q x)
    → All P xs
    → All Q xs
All_map P Q [] f h = tt
All_map P Q (x ∷ xs) f h = (f x h.0, All_map P Q xs f h.1)

pub IsOrdered-without :
    (xs ys : List BlockedTask) (x : BlockedTask) → IsOrdered (xs ++ x ∷ ys) → IsOrdered (xs ++ ys)
IsOrdered-without [] ys x h = h.1
IsOrdered-without (z ∷ xs) ys x h =
    (All-without (NoLater z) xs ys x h.0, IsOrdered-without xs ys x h.1)

no_later_trans :
    (a b c : Option ℕ) → no_later a b ≡ true → no_later b c ≡ true → no_later a c ≡ true
no_later_trans a b none h k = refl
no_later_trans a none (some c) h k = absurd cc
no_later_trans none (some b) (some c) h k = h
no_later_trans (some a) (some b) (some c) h k = ground arith

-- The node stands behind all that are not after it and before all that are.
pub record Places (o : Option ℕ) (node : BlockedTask) (xs out : List BlockedTask) : Type 0 where
  pub before : List BlockedTask
  pub after : List BlockedTask
  pub was : xs ≡ before ++ after
  pub is : out ≡ before ++ node ∷ after
  pub earlier : All (λ x. no_later x.wakeup_time o ≡ true) before
  pub later : All (λ x. no_later x.wakeup_time o ≡ false) after
  pub is_ordered : IsOrdered out

later_one : (wt : ℕ) (o : Option ℕ) → goes_before wt o ≡ true → no_later o (some wt) ≡ false
later_one wt none h = refl
later_one wt (some t) h = ground arith

earlier_one : (wt : ℕ) (o : Option ℕ) → goes_before wt o ≡ false → no_later o (some wt) ≡ true
earlier_one wt none h = absurd cc
earlier_one wt (some t) h = ground arith

earlier_than : (wt : ℕ) (o : Option ℕ) → goes_before wt o ≡ true → no_later (some wt) o ≡ true
earlier_than wt none h = refl
earlier_than wt (some t) h = ground arith

later_still :
    (wt : ℕ) (o p : Option ℕ)
    → goes_before wt o ≡ true
    → no_later o p ≡ true
    → goes_before wt p ≡ true
later_still wt o none h k = refl
later_still wt none (some b) h k = absurd cc
later_still wt (some a) (some b) h k = ground arith

pub All_insert :
    (P : BlockedTask → Type 0) (xs ys : List BlockedTask) (x : BlockedTask)
    → P x
    → All P (xs ++ ys)
    → All P (xs ++ x ∷ ys)
All_insert P [] ys x p h = (p, h)
All_insert P (z ∷ xs) ys x p h = (h.0, All_insert P xs ys x p h.1)

insert_cons :
    (wt r : ℕ) (x : BlockedTask) (xs : List BlockedTask)
    → let node : BlockedTask = record { task = r; wakeup_time = some wt } in
      goes_before wt x.wakeup_time ≡ false
      → All (NoLater x) xs
      → Places (some wt) node xs (insert wt node xs)
      → Places (some wt) node (x ∷ xs) (x ∷ insert wt node xs)
insert_cons wt r x xs e all p =
    let node : BlockedTask = record { task = r; wakeup_time = some wt } in
    let h = earlier_one wt x.wakeup_time e in
    let split : All (NoLater x) (p.before ++ p.after) = subst (All (NoLater x)) p.was all in
    let joined = All_insert (NoLater x) p.before p.after node h split in
    record {
      before = x ∷ p.before;
      after = p.after;
      was = ap (◌∷◌ x) p.was;
      is = ap (◌∷◌ x) p.is;
      earlier = (h, p.earlier);
      later = p.later;
      is_ordered = (subst (All (NoLater x)) (sym p.is) joined, p.is_ordered);
    }

insert_first :
    (wt r : ℕ) (x : BlockedTask) (xs : List BlockedTask)
    → let node : BlockedTask = record { task = r; wakeup_time = some wt } in
      goes_before wt x.wakeup_time ≡ true
      → IsOrdered (x ∷ xs)
      → Places (some wt) node (x ∷ xs) (node ∷ x ∷ xs)
insert_first wt r x xs e v =
    let still =
      λ (y : BlockedTask) (k : NoLater x y). later_still wt x.wakeup_time y.wakeup_time e k in
    record {
      before = [];
      after = x ∷ xs;
      was = refl;
      is = refl;
      earlier = tt;
      later = (
        later_one wt x.wakeup_time e,
        All_map (NoLater x) _ xs (λ y k. later_one wt y.wakeup_time (still y k)) v.0,
      );
      is_ordered = (
        (
          earlier_than wt x.wakeup_time e,
          All_map (NoLater x) _ xs (λ y k. earlier_than wt y.wakeup_time (still y k)) v.0,
        ),
        v,
      );
    }

insert-Places :
    (wt r : ℕ) (xs : List BlockedTask)
    → let node : BlockedTask = record { task = r; wakeup_time = some wt } in
      IsOrdered xs → Places (some wt) node xs (insert wt node xs)
unfolding insert
insert-Places wt r [] v = record {
  before = [];
  after = [];
  was = refl;
  is = refl;
  earlier = tt;
  later = tt;
  is_ordered = (tt, tt);
}
insert-Places wt r (x ∷ xs) v = elim (Bool-cases (goes_before wt x.wakeup_time)) [
  | inl e ↦ rw e (insert_first wt r x xs e v)
  | inr e ↦ rw e (insert_cons wt r x xs e v.0 (insert-Places wt r xs v.1))
]

IsOrdered-last :
    (r : ℕ) (xs : List BlockedTask)
    → IsOrdered xs
    → IsOrdered (xs ++ record { task = r; wakeup_time = none } ∷ [])
IsOrdered-last r [] v = (tt, tt)
IsOrdered-last r (x ∷ xs) v = (All-append (NoLater x) xs _ v.0 (refl, tt), IsOrdered-last r xs v.1)

all_no_later : (xs : List BlockedTask) → All (λ x. no_later x.wakeup_time none ≡ true) xs
all_no_later [] = tt
all_no_later (x ∷ xs) = (refl, all_no_later xs)

pub place-Places :
    (o : Option ℕ) (r : ℕ) (xs : List BlockedTask)
    → let node : BlockedTask = record { task = r; wakeup_time = o } in
      IsOrdered xs → Places o node xs (place o node xs)
place-Places none r xs v = record {
  before = xs;
  after = [];
  was = sym (append-nil xs);
  is = refl;
  earlier = all_no_later xs;
  later = tt;
  is_ordered = IsOrdered-last r xs v;
}
place-Places (some wt) r xs v = insert-Places wt r xs v

not_yet :
    (time : ℕ) (o p : Option ℕ)
    → no_later o p ≡ true
    → has_elapsed time o ≡ false
    → has_elapsed time p ≡ false
not_yet time o none h e = refl
not_yet time none (some b) h e = absurd cc
not_yet time (some a) (some b) h e = ground arith

none_due :
    (time : ℕ) (x : BlockedTask) (xs : List BlockedTask)
    → is_due time x ≡ false
    → All (NoLater x) xs
    → (due time xs ≡ []) × (not_due time xs ≡ xs)
unfolding due not_due
none_due time x [] e h = (refl, refl)
none_due time x (y ∷ ys) e h =
    let f = not_yet time x.wakeup_time y.wakeup_time h.0 e in
    let (a, b) = none_due time x ys e h.1 in rw (f, a, b) (refl, refl)

-- In an ordered queue the tasks whose time has come stand in front of the others.
pub due-first :
    (time : ℕ) (xs : List BlockedTask)
    → IsOrdered xs
    → (due time xs ++ not_due time xs ≡ xs) × IsOrdered (not_due time xs)
unfolding due not_due
due-first time [] v = (refl, tt)
due-first time (x ∷ xs) v = elim (Bool-cases (is_due time x)) [
  | inl e ↦ let (a, b) = due-first time xs v.1 in rw e (ap (◌∷◌ x) a, b)
  | inr e ↦ let (a, b) = none_due time x xs e v.0 in rw (e, a, b) (refl, v)
]
