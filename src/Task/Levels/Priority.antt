-- ===== src/Task/Levels/Priority.antt =====
-- Levels whose entries have the level's number as their priority: the order in which they are
-- served is by priority, and first come first served within one priority.
use mathlib.Core.List.{append_assoc}
use hermit_kernel.Base.{
  ℕ, zero, suc, ◌≤◌, ◌<◌, ◌≡◌, refl, sym, ap, ◌∙◌, inl, inr, List, [], ◌∷◌, ◌++◌, arith,
}
use hermit_kernel.Base.Tests.{◌==◌, ltb, if◌then◌else◌, Bool-cases}
use hermit_kernel.Base.Lists.{length, set, get_or-set_self, get_or-set_ne}
use hermit_kernel.Task.Levels.{level, order, order-set_above}

module _ {ℓ} {A : Type ℓ} (prio : A → ℕ) where
  -- An entry goes behind all those that are at least as urgent.
  unfoldable pub insert : A → List A → List A
  insert t [] = t ∷ []
  insert t (x ∷ xs) = if ltb (prio x) (prio t) then t ∷ x ∷ xs else x ∷ insert t xs

  abbrev pub AtLevel : ℕ → List A → Type 0
  AtLevel j [] = Unit
  AtLevel j (x ∷ xs) = (prio x ≡ j) × AtLevel j xs

  abbrev pub Below : ℕ → List A → Type 0
  Below j [] = Unit
  Below j (x ∷ xs) = (prio x < j) × Below j xs

  abbrev pub IsSorted : List (List A) → Type 0
  IsSorted qs = (j : ℕ) → AtLevel j (level qs j)

  Below-append : (j : ℕ) (xs ys : List A) → Below j xs → Below j ys → Below j (xs ++ ys)
  Below-append j [] ys p q = q
  Below-append j (x ∷ xs) ys p q = (p.0, Below-append j xs ys p.1 q)

  Below-level : (k j : ℕ) (xs : List A) → j < k → AtLevel j xs → Below k xs
  Below-level k j [] h p = tt
  Below-level k j (x ∷ xs) h p = (omega arith, Below-level k j xs h p.1)

  order-Below : (k m : ℕ) (qs : List (List A)) → k ≤ m → IsSorted qs → Below m (order k qs)
  unfolding order
  order-Below zero m qs h s = tt
  order-Below (suc k) m qs h s =
      Below-append m (level qs k) (order k qs) (Below-level m k (level qs k) h (s k))
        (order-Below k m qs (omega arith) s)

  insert_front : (t : A) (xs : List A) → Below (prio t) xs → insert t xs ≡ t ∷ xs
  unfolding insert
  insert_front t [] h = refl
  insert_front t (x ∷ xs) h = ground arith

  insert_behind :
      (t : A) (j : ℕ) (xs ys : List A)
      → prio t ≤ j
      → AtLevel j xs
      → insert t (xs ++ ys) ≡ xs ++ insert t ys
  unfolding insert
  insert_behind t j [] ys l h = refl
  insert_behind t j (x ∷ xs) ys l h = ground (arith, insert_behind t j xs ys l h.1)

  -- Appending to the entry's level inserts it in the order.
  pub order-append :
      (k i : ℕ) (qs : List (List A)) (t : A)
      → i < k
      → i < length qs
      → prio t ≡ i
      → IsSorted qs
      → order k (set qs i (level qs i ++ t ∷ [])) ≡ insert t (order k qs)
  unfolding order
  order-append zero i qs t l b e s = absurd (omega arith)
  order-append (suc k) i qs t l b e s = elim (Bool-cases (i == k)) [
    | inl same ↦
        let c : k ≡ i = ground arith in
        rw (c, get_or-set_self qs i (level qs i ++ t ∷ []) [] b)
          (rw (order-set_above i i qs (level qs i ++ t ∷ []) (omega arith)) (
            append_assoc (level qs i) (t ∷ []) (order i qs)
            ∙ ap (◌++◌ (level qs i))
                (sym (insert_front t (order i qs) (order-Below i (prio t) qs (omega arith) s)))
            ∙ sym (insert_behind t i (level qs i) (order i qs) (omega arith) (s i))))
    | inr other ↦ rw (get_or-set_ne qs i k (level qs i ++ t ∷ []) [] (ground arith)) (
        ap (◌++◌ (level qs k)) (order-append k i qs t (ground arith) b e s)
        ∙ sym (insert_behind t k (level qs k) (order k qs) (ground arith) (s k)))
  ]

  pub AtLevel-append :
      (j : ℕ) (xs : List A) (t : A) → prio t ≡ j → AtLevel j xs → AtLevel j (xs ++ t ∷ [])
  AtLevel-append j [] t e h = (e, tt)
  AtLevel-append j (x ∷ xs) t e h = (h.0, AtLevel-append j xs t e h.1)

  pub IsSorted-set :
      (qs : List (List A)) (i : ℕ) (xs : List A)
      → i < length qs
      → AtLevel i xs
      → IsSorted qs
      → IsSorted (set qs i xs)
  IsSorted-set qs i xs b h s j = elim (Bool-cases (j == i)) [
    | inl same ↦ let e : j ≡ i = ground arith in rw (e, get_or-set_self qs i xs [] b) h
    | inr other ↦ rw (get_or-set_ne qs i j xs [] (ground arith)) (s j)
  ]

  pub IsSorted-append :
      (qs : List (List A)) (i : ℕ) (t : A)
      → i < length qs
      → prio t ≡ i
      → IsSorted qs
      → IsSorted (set qs i (level qs i ++ t ∷ []))
  IsSorted-append qs i t b e s =
      IsSorted-set qs i (level qs i ++ t ∷ []) b (AtLevel-append i (level qs i) t e (s i)) s
