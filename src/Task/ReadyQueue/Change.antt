-- ===== src/Task/ReadyQueue/Change.antt =====
-- `set_priority` moves one ready task to its new place.
use hermit_kernel.Base.{
  ℕ, zero, suc, ◌≤◌, ◌<◌, ◌≡◌, ◌≢◌, refl, sym, ap, ◌∙◌, inl, inr, true, false, some, List, [], ◌∷◌,
  ◌++◌, arith,
}
use hermit_kernel.Base.Tests.{◌==◌, ltb, Bool-cases, lt→ltb, ==_refl}
use hermit_kernel.Base.Lists.{
  length, set, take, drop, All, length-append, length-set, get_or-set_self, get_or-set_ne,
}
use hermit_kernel.Task.Types.{Tasks}
use hermit_kernel.Task.Levels.{
  no_priorities, level, filled, filled_le, order, order-set_above, Records-clear_bit,
}
use hermit_kernel.Task.Levels.Priority.{insert, AtLevel}
use hermit_kernel.Task.ReadyQueue.{
  PriorityTaskQueue, cut_level, remove_from_queue, position, with_prio, set_priority,
}
use hermit_kernel.Task.ReadyQueue.Order.{IsValid, waiting, prio_of, push_task_refines}
use mathlib.Core.List.{append_assoc}

module _ {ℓ} {A : Type ℓ} where
  take_before : (xs ys : List A) → take (length xs) (xs ++ ys) ≡ xs
  take_before [] ys = refl
  take_before (x ∷ xs) ys = ap (◌∷◌ x) (take_before xs ys)

  drop_before : (xs ys : List A) → drop (length xs) (xs ++ ys) ≡ ys
  drop_before [] ys = refl
  drop_before (x ∷ xs) ys = drop_before xs ys

  filled_less : (xs ys : List A) (a : A) → filled (xs ++ ys) ≤ filled (xs ++ a ∷ ys)
  filled_less [] ys a = filled_le ys
  filled_less (x ∷ xs) ys a = omega arith

  -- Taking an entry out of its level takes it out of the order.
  order-remove :
      (k i : ℕ) (qs : List (List A)) (before after : List A) (r : A)
      → i < k
      → i < length qs
      → level qs i ≡ before ++ r ∷ after
      → (xs : List A) × (ys : List A) × (order k qs ≡ xs ++ r ∷ ys)
        × (order k (set qs i (before ++ after)) ≡ xs ++ ys)
  unfolding order
  order-remove zero i qs before after r l b e = absurd (omega arith)
  order-remove (suc k) i qs before after r l b e = elim (Bool-cases (i == k)) [
    | inl same ↦
        let s : k ≡ i = ground arith in
        (
          before,
          after ++ order i qs,
          rw (s, e) (append_assoc before (r ∷ after) (order i qs)),
          rw (s, get_or-set_self qs i (before ++ after) [] b)
              (rw (order-set_above i i qs (before ++ after) (omega arith))
                (append_assoc before after (order i qs))),
        )
    | inr other ↦
        let (xs, ys, p, q) = order-remove k i qs before after r (ground arith) b e in
        (
          level qs k ++ xs,
          ys,
          rw p (sym (append_assoc (level qs k) xs (r ∷ ys))),
          rw (get_or-set_ne qs i k (before ++ after) [] (ground arith), q)
              (sym (append_assoc (level qs k) xs ys)),
        )
  ]

abbrev OtherIds : Tasks → ℕ → List ℕ → Type 0
OtherIds st r = All λ x. (st x).id ≢ (st r).id

position_before :
    (st : Tasks) (r : ℕ) (before after : List ℕ)
    → OtherIds st r before
    → position st (st r).id (before ++ r ∷ after) ≡ some (length before)
unfolding position
position_before st r [] after h = rw (==_refl (st r).id, position)
position_before st r (x ∷ xs) after h = ground (arith, position_before st r xs after h.1)

AtLevel-with_prio :
    (st : Tasks) (r prio j : ℕ) (xs : List ℕ)
    → AtLevel (prio_of st) j xs
    → All (λ x. x ≢ r) xs
    → AtLevel (prio_of (with_prio st r prio)) j xs
AtLevel-with_prio st r prio j [] h n = tt
AtLevel-with_prio st r prio j (x ∷ xs) h n =
    (ground arith, AtLevel-with_prio st r prio j xs h.1 n.1)

ne_of_level :
    (st : Tasks) (r j : ℕ) (xs : List ℕ)
    → AtLevel (prio_of st) j xs
    → (st r).prio ≢ j
    → All (λ x. x ≢ r) xs
ne_of_level st r j [] h n = tt
ne_of_level st r j (x ∷ xs) h n =
    (λ e. n (ap (prio_of st) (sym e) ∙ h.0), ne_of_level st r j xs h.1 n)

ne_of_ids : (st : Tasks) (r : ℕ) (xs : List ℕ) → OtherIds st r xs → All (λ x. x ≢ r) xs
ne_of_ids st r [] h = tt
ne_of_ids st r (x ∷ xs) h = (λ e. h.0 (ap (λ y. (st y).id) e), ne_of_ids st r xs h.1)

AtLevel-remove :
    (p : ℕ → ℕ) (j : ℕ) (xs ys : List ℕ) (r : ℕ)
    → AtLevel p j (xs ++ r ∷ ys)
    → AtLevel p j (xs ++ ys)
AtLevel-remove p j [] ys r h = h.1
AtLevel-remove p j (x ∷ xs) ys r h = (h.0, AtLevel-remove p j xs ys r h.1)

module _ (st : Tasks) (q : PriorityTaskQueue) (r prio : ℕ) (before after : List ℕ)
    (v : IsValid st q) (ready : level q.queues (st r).prio ≡ before ++ r ∷ after)
    (others : OtherIds st r (before ++ after)) (small : (st r).prio < no_priorities) where
  removed : PriorityTaskQueue
  removed = cut_level q (st r).prio (before ++ after)

  removed-IsValid : IsValid (with_prio st r prio) removed
  unfolding removed
  removed-IsValid = record {
    size = length-set q.queues i rest ∙ v.size;
    recorded =
        Records-clear_bit q.prio_bitmap q.queues i rest v.size small
          (rw ready (filled_less before after r)) v.recorded;
    sorted = λ j. elim (Bool-cases (j == i)) [
      | inl same ↦
          let e : j ≡ i = ground arith in
          rw (e, get_or-set_self q.queues i rest [] (omega (arith, v.size)))
            (AtLevel-with_prio st r prio i rest
              (AtLevel-remove (prio_of st) i before after r (rw ready at (v.sorted i)))
              (ne_of_ids st r rest others))
      | inr other ↦ rw (get_or-set_ne q.queues i j rest [] (ground arith)) (
          AtLevel-with_prio st r prio j (level q.queues j) (v.sorted j)
            (ne_of_level st r j (level q.queues j) (v.sorted j) (ground arith)))
    ];
  }
    where
      i : ℕ
      i = (st r).prio

      rest : List ℕ
      rest = before ++ after

  remove_step : remove_from_queue q (length before) (st r).prio ≡ some (some r, removed)
  unfolding remove_from_queue removed
  remove_step =
      let long : ltb (length (before ++ r ∷ after)) (length before) ≡ false =
        ground (arith, length-append before (r ∷ after)) in
      rw (
        lt→ltb (st r).prio (length q.queues) (omega (arith, v.size)),
        ready,
        long,
        take_before before (r ∷ after),
        drop_before before (r ∷ after),
      )

  before_ids : (xs ys : List ℕ) → OtherIds st r (xs ++ ys) → OtherIds st r xs
  before_ids [] ys h = tt
  before_ids (x ∷ xs) ys h = (h.0, before_ids xs ys h.1)

  position_step : position st (st r).id (level q.queues (st r).prio) ≡ some (length before)
  position_step = rw ready (position_before st r before after (before_ids before after others))

  -- If the tasks of a valid queue have distinct identifiers, `set_priority` with the handle of a
  -- task that waits in it succeeds: it gives that task the new priority, takes it out of its place
  -- and queues it anew, behind all tasks that are at least as urgent; the others keep their order.
  pub set_priority_refines :
      prio < no_priorities
      → (q' : PriorityTaskQueue) × (xs : List ℕ) × (ys : List ℕ) × (set_priority st q
            (record { id = (st r).id; priority = (st r).prio })
            prio
          ≡ some (true, with_prio st r prio, q'))
        × IsValid (with_prio st r prio) q'
        × (waiting q ≡ xs ++ r ∷ ys)
        × (waiting q' ≡ insert (prio_of (with_prio st r prio)) r (xs ++ ys))
  unfolding set_priority removed
  set_priority_refines l =
      let st' = with_prio st r prio in
      let low : (st' r).prio < no_priorities = rw (==_refl r) l in
      let (q', e, v', w') = push_task_refines st' r removed low removed-IsValid in
      let b : (st r).prio < length q.queues = omega (arith, v.size) in
      let (xs, ys, w, cut) =
        order-remove no_priorities (st r).prio q.queues before after r small b ready in
      (
        q',
        xs,
        ys,
        rw (lt→ltb (st r).prio (length q.queues) b, position_step) (rw remove_step (rw e)),
        v',
        w,
        w' ∙ ap (insert (prio_of st') r) cut,
      )
