-- ===== src/Base/Sort.antt =====
-- A stable sort, and the first element of a sorted list that passes a test.
use mathlib.Core.Path.{◌≡◌, refl, ap, sym, ◌∙◌}
use mathlib.Core.Logic.{inl, inr}
use mathlib.Core.Bool.{Bool, true, false}
use mathlib.Core.List.{List, [], ◌∷◌}
use mathlib.Core.Option.{Option, none, some}
use hermit_kernel.Base.Tests.{if◌then◌else◌, Bool-cases}
use hermit_kernel.Base.Lists.{All}

unfoldable pub find : {A : Type 0} → (A → Bool) → List A → Option A
find p [] = none
find p (x ∷ xs) = let rest = find p xs in if p x then some x else rest

module _ {A : Type 0} (le : A → A → Bool) where
  unfoldable pub insert_by : A → List A → List A
  insert_by x [] = x ∷ []
  insert_by x (y ∷ ys) = let rest = insert_by x ys in if le x y then x ∷ y ∷ ys else y ∷ rest

  -- `sort_by`
  unfoldable pub sort_by : List A → List A
  unfolding insert_by
  sort_by [] = []
  sort_by (x ∷ xs) = insert_by x (sort_by xs)

  -- The better of an element and what there is.
  abbrev pub better : A → Option A → Option A
  better x none = some x
  better x (some y) = if le x y then some x else some y

  -- The least element that passes the test, of several the first.
  unfoldable pub least : (A → Bool) → List A → Option A
  least p [] = none
  least p (x ∷ xs) = let rest = least p xs in if p x then better x rest else rest

  abbrev pub IsTransitive : Type 0
  IsTransitive = (x y z : A) → le x y ≡ true → le y z ≡ true → le x z ≡ true

  abbrev pub IsTotal : Type 0
  IsTotal = (x y : A) → le x y ≡ false → le y x ≡ true

  abbrev pub IsSorted : List A → Type 0
  IsSorted [] = Unit
  IsSorted (x ∷ xs) = All (λ y. le x y ≡ true) xs × IsSorted xs

  All-insert_by : (P : A → Type 0) (x : A) (ys : List A) → P x → All P ys → All P (insert_by x ys)
  unfolding insert_by
  All-insert_by P x [] h k = (h, tt)
  All-insert_by P x (y ∷ ys) h k = elim (Bool-cases (le x y)) [
    | inl e ↦ rw e (h, k)
    | inr e ↦ rw e (k.0, All-insert_by P x ys h k.1)
  ]

  weaker :
      (trans : IsTransitive) (x y : A) (zs : List A)
      → le x y ≡ true
      → All (λ z. le y z ≡ true) zs
      → All (λ z. le x z ≡ true) zs
  weaker trans x y [] e h = tt
  weaker trans x y (z ∷ zs) e h = (trans x y z e h.0, weaker trans x y zs e h.1)

  insert_by-IsSorted :
      (trans : IsTransitive) (total : IsTotal) (x : A) (ys : List A)
      → IsSorted ys
      → IsSorted (insert_by x ys)
  unfolding insert_by
  insert_by-IsSorted trans total x [] s = (tt, tt)
  insert_by-IsSorted trans total x (y ∷ ys) s = elim (Bool-cases (le x y)) [
    | inl e ↦ rw e ((e, weaker trans x y ys e s.0), s)
    | inr e ↦ rw e (
      All-insert_by (λ z. le y z ≡ true) x ys (total x y e) s.0,
      insert_by-IsSorted trans total x ys s.1,
    )
  ]

  sort_by-IsSorted : (trans : IsTransitive) (total : IsTotal) (xs : List A) → IsSorted (sort_by xs)
  unfolding sort_by
  sort_by-IsSorted trans total [] = tt
  sort_by-IsSorted trans total (x ∷ xs) =
      insert_by-IsSorted trans total x (sort_by xs) (sort_by-IsSorted trans total xs)

  -- An element before all others is better than what there is among them.
  better_first :
      (p : A → Bool) (x : A) (ys : List A)
      → All (λ y. le x y ≡ true) ys
      → better x (find p ys) ≡ some x
  unfolding find
  better_first p x [] h = refl
  better_first p x (y ∷ ys) h = elim (Bool-cases (p y)) [
    | inl e ↦ rw (e, h.0) refl
    | inr e ↦ rw e (better_first p x ys h.1)
  ]

  either_way : (b : Bool) (o : Option A) → (if b then o else o) ≡ o
  either_way true o = refl
  either_way false o = refl

  find-insert_by :
      (trans : IsTransitive) (p : A → Bool) (x : A) (ys : List A)
      → IsSorted ys
      → find p (insert_by x ys) ≡ (if p x then better x (find p ys) else find p ys)
  unfolding find insert_by
  find-insert_by trans p x [] s = refl
  find-insert_by trans p x (y ∷ ys) s = elim (Bool-cases (le x y)) [
    | inl e ↦
        let first = better_first p x (y ∷ ys) (e, weaker trans x y ys e s.0) in
        rw e (ap (λ o. if p x then o else find p (y ∷ ys)) (sym first))
    | inr e ↦ elim (Bool-cases (p y)) [
      | inl f ↦ rw (f, e, f) (sym (either_way (p x) (some y)))
      | inr f ↦ rw (f, e, f) (find-insert_by trans p x ys s.1)
    ]
  ]

  -- The first element of the sorted list that passes the test is the least one that does.
  pub find-sort_by :
      (trans : IsTransitive) (total : IsTotal) (p : A → Bool) (xs : List A)
      → find p (sort_by xs) ≡ least p xs
  unfolding find sort_by least
  find-sort_by trans total p [] = refl
  find-sort_by trans total p (x ∷ xs) =
      find-insert_by trans p x (sort_by xs) (sort_by-IsSorted trans total xs)
      ∙ ap (λ o. if p x then better x o else o) (find-sort_by trans total p xs)
