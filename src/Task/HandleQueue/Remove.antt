-- ===== src/Task/HandleQueue/Remove.antt =====
-- `remove` and `contains`, which look a task up by its identifier in the level of its priority.
use hermit_kernel.Base.{
  ℕ, zero, suc, ◌≤◌, ◌<◌, ◌≡◌, ◌≢◌, refl, sym, ap, ◌∙◌, inl, inr, Bool, true, false, ◌||◌, Option,
  none, some, List, [], ◌∷◌, ◌++◌, arith,
}
use hermit_kernel.Base.Tests.{◌==◌, ltb, if◌then◌else◌, Bool-cases, Option-cases}
use hermit_kernel.Base.Lists.{
  length, get_or, set, get_or-set_self, get_or-set_ne, get_elem?-eq-get_or,
}
use hermit_kernel.Base.Bits.{clear_bit}
use hermit_kernel.Task.Types.{TaskHandle}
use hermit_kernel.Task.Levels.{
  no_priorities, level, filled, is_empty as no_entry, Records-clear_bit, order,
}
use hermit_kernel.Task.Levels.Priority.{AtLevel}
use hermit_kernel.Task.HandleQueue.{TaskHandlePriorityQueue, remove, remove_id, any_id, contains}
use hermit_kernel.Task.HandleQueue.Pool.{BitmapPool}
use hermit_kernel.Task.HandleQueue.Repr.{
  IsPool, IsFresh, IsAllocated, IsUsable, levels, entries, waiting, priority_of, level-map, map-set,
  length-levels, IsPool-set, KeepsOthers, KeepsOthers-set,
}
use hermit_kernel.Task.HandleQueue.Order.{rewritten_pool, with_level, level_in, rewritten}
use hermit_kernel.Task.HandleQueue.Take.{clear_step}

-- The handles with another identifier, in their order.
unfoldable pub without : ℕ → List TaskHandle → List TaskHandle
without id [] = []
without id (h ∷ hs) = if h.id == id then without id hs else h ∷ without id hs

remove_id_lem : (id : ℕ) (l : List TaskHandle) → remove_id id l ≡ (any_id id l, without id l)
unfolding remove_id any_id without
remove_id_lem id [] = refl
remove_id_lem id (h ∷ hs) = ground (arith, remove_id_lem id hs)

without-append :
    (id : ℕ) (xs ys : List TaskHandle) → without id (xs ++ ys) ≡ without id xs ++ without id ys
unfolding without
without-append id [] ys = refl
without-append id (x ∷ xs) ys = ground (arith, without-append id xs ys)

pub any_id-append :
    (id : ℕ) (xs ys : List TaskHandle) → any_id id (xs ++ ys) ≡ (any_id id xs || any_id id ys)
unfolding any_id
any_id-append id [] ys = refl
any_id-append id (x ∷ xs) ys = ground (arith, any_id-append id xs ys)

without_absent : (id : ℕ) (xs : List TaskHandle) → any_id id xs ≡ false → without id xs ≡ xs
unfolding any_id without
without_absent id [] h = refl
without_absent id (x ∷ xs) h = ground (arith, without_absent id xs)

filled-without : (id : ℕ) (xs : List TaskHandle) → filled (without id xs) ≤ filled xs
unfolding without
filled-without id [] = omega arith
filled-without id (x ∷ xs) = elim (Bool-cases (x.id == id)) [
  | inl e ↦ rw e (at_most (without id xs))
  | inr e ↦ rw e (omega arith)
]
  where
    at_most : (l : List TaskHandle) → filled l ≤ 1
    at_most [] = omega arith
    at_most (y ∷ ys) = omega arith

AtLevel-without :
    (id j : ℕ) (xs : List TaskHandle)
    → AtLevel priority_of j xs
    → AtLevel priority_of j (without id xs)
unfolding without
AtLevel-without id j [] h = tt
AtLevel-without id j (x ∷ xs) h = ground (arith, AtLevel-without id j xs h.1)

-- The identifier occurs at no other level than `i`.
abbrev pub OnlyAt : ℕ → ℕ → List (List TaskHandle) → Type 0
OnlyAt id i qs = (j : ℕ) → j ≢ i → any_id id (level qs j) ≡ false

order-without :
    (k id i : ℕ) (qs : List (List TaskHandle))
    → i < length qs
    → OnlyAt id i qs
    → order k (set qs i (without id (level qs i))) ≡ without id (order k qs)
unfolding order
order-without zero id i qs b h = unfold without in refl
order-without (suc k) id i qs b h =
    (elim (Bool-cases (k == i)) [
      | inl same ↦
          let e : k ≡ i = ground arith in
          rw (e, get_or-set_self qs i (without id (level qs i)) [] b) refl
      | inr other ↦ rw (get_or-set_ne qs i k (without id (level qs i)) [] (ground arith)) (
          ap (λ l. l ++ order k (set qs i (without id (level qs i))))
            (sym (without_absent id (level qs k) (h k (ground arith)))))
    ])
    ∙ ap (◌++◌ (without id (level qs k))) (order-without k id i qs b h)
    ∙ sym (without-append id (level qs k) (order k qs))

any_id-order :
    (k id i : ℕ) (qs : List (List TaskHandle))
    → OnlyAt id i qs
    → any_id id (order k qs) ≡ (if ltb i k then any_id id (level qs i) else false)
unfolding order any_id
any_id-order zero id i qs h = ground arith
any_id-order (suc k) id i qs h = elim (Bool-cases (k == i)) [
  | inl same ↦ ground (
    arith,
    any_id-append id (level qs k) (order k qs),
    any_id-order k id i qs h,
    ap (λ j. any_id id (level qs j)) (same_level same),
  )
  | inr other ↦ ground (
    arith,
    any_id-append id (level qs k) (order k qs),
    any_id-order k id i qs h,
    h k (other_level other),
  )
]
  where
    same_level : (k == i) ≡ true → k ≡ i
    same_level e = ground arith

    other_level : (k == i) ≡ false → k ≢ i
    other_level e = ground arith

-- What `remove` does to a usable queue.
pub record Removes (p : BitmapPool) (q : TaskHandlePriorityQueue) (task : TaskHandle)
    (out : Option (Bool × BitmapPool × TaskHandlePriorityQueue)) : Type 0 where
  pub pool : BitmapPool
  pub queue : TaskHandlePriorityQueue
  pub returns : out ≡ some (any_id task.id (waiting q), pool, queue)
  pub is_pool : IsPool pool
  pub usable : IsUsable pool queue
  pub others : KeepsOthers p q pool queue.prio_bitmap_id
  pub left : waiting queue ≡ without task.id (waiting q)

module _ (q : TaskHandlePriorityQueue) (task : TaskHandle) (small : task.priority < no_priorities)
    (once : OnlyAt task.id task.priority (levels q)) where
  found_at : any_id task.id (level (levels q) task.priority) ≡ any_id task.id (waiting q)
  found_at =
      let e = any_id-order no_priorities task.id task.priority (levels q) once in ground arith

  absent_of_none : get_or q.queues task.priority none ≡ none → any_id task.id (waiting q) ≡ false
  absent_of_none e =
      sym found_at
      ∙ ap (any_id task.id) (level-map q.queues task.priority ∙ ap entries e)
      ∙ unfold any_id in refl

  -- If the identifier waits at no other priority than the handle's, `contains` says whether it
  -- waits in the queue.
  pub contains_lem :
      length q.queues ≡ no_priorities → contains q task ≡ some (any_id task.id (waiting q))
  unfolding contains
  contains_lem size =
      let i = task.priority in
      let read = get_elem?-eq-get_or q.queues i none (omega (arith, size)) in
      elim (Option-cases (get_or q.queues i none)) [
        | inl e ↦ rw (read, e, absent_of_none e)
        | inr (l, e) ↦
            rw (read, e)
              (ap some (ap (any_id task.id) (sym (level-map q.queues i ∙ ap entries e)) ∙ found_at))
      ]

module _ (p : BitmapPool) (q : TaskHandlePriorityQueue) (task : TaskHandle) (v : IsPool p)
    (small : task.priority < no_priorities) (once : OnlyAt task.id task.priority (levels q)) where
  -- A level without a deque: nothing is removed.
  no_deque :
      length q.queues ≡ no_priorities
      → get_or q.queues task.priority none ≡ none
      → IsUsable p q
      → Removes p q task (remove p q task)
  unfolding remove
  no_deque size e u =
      let absent = absent_of_none q task small once e in
      record {
        pool = p;
        queue = q;
        returns =
            rw (get_elem?-eq-get_or q.queues task.priority none (omega (arith, size)), e, absent);
        is_pool = v;
        usable = u;
        others = λ other b n. (b, n);
        left = sym (without_absent task.id (waiting q) absent);
      }

  with_deque :
      (l : List TaskHandle)
      → get_or q.queues task.priority none ≡ some l
      → IsAllocated p q
      → Removes p q task (remove p q task)
  unfolding remove
  with_deque l e a =
      let i = task.priority in
      let old = get_or p.slots q.prio_bitmap_id 0 in
      let here = level-map q.queues i ∙ ap entries e in
      let rest = without task.id (level (levels q) i) in
      let bits = if no_entry rest then clear_bit old i else old in
      let b = level_in p q i bits rest v a small in
      let loop : remove_id task.id l ≡ (any_id task.id (waiting q), rest) =
        remove_id_lem task.id l
        ∙ ap (λ xs. (any_id task.id xs, without task.id xs)) (sym here)
        ∙ ap (λ (found : Bool). (found, rest)) (found_at q task small once) in
      record {
        pool = rewritten_pool p q bits;
        queue = with_level q i rest;
        returns =
            rw (get_elem?-eq-get_or q.queues i none (omega (arith, a.size)), e, loop)
              (rw (clear_step p (with_level q i rest) i rest v a.id_pos a.id_next));
        is_pool = IsPool-set p q.prio_bitmap_id bits v a.id_next;
        usable = inl (
            rewritten p q i bits rest v a small
              (Records-clear_bit old (levels q) i rest (length-levels q.queues ∙ a.size) small
                (filled-without task.id (level (levels q) i)) a.recorded)
              (AtLevel-without task.id i (level (levels q) i) (a.sorted i)));
        others = KeepsOthers-set p q bits;
        left =
            rw (map-set q.queues i rest) (order-without no_priorities task.id i (levels q) b once);
      }

  -- If the identifier waits at no other priority than the handle's, `remove` takes out exactly the
  -- handles with it, keeps the others in their order, and returns whether there was one. The pool,
  -- the queue and every other queue with a bitmap stay valid.
  pub remove_handle_refines : IsUsable p q → Removes p q task (remove p q task)
  remove_handle_refines (inr f) = no_deque f.size (f.unused task.priority) (inr f)
  remove_handle_refines (inl a) = elim (Option-cases (get_or q.queues task.priority none)) [
    | inl e ↦ no_deque a.size e (inl a)
    | inr (l, e) ↦ with_deque l e a
  ]

-- In a queue that was not used yet nothing waits anywhere.
pub fresh-OnlyAt :
    (p : BitmapPool) (q : TaskHandlePriorityQueue) (id i : ℕ) → IsFresh p q → OnlyAt id i (levels q)
unfolding any_id
fresh-OnlyAt p q id i f j h = rw (level-map q.queues j, f.unused j)
