-- ===== src/Task/ReadyQueue/Order.antt =====
-- The ready queue serves by priority, and first come first served within one priority.
use mathlib.Core.Path.{subst}
use hermit_kernel.Base.{
  ℕ, ◌<◌, ◌≡◌, refl, sym, ap, ◌∙◌, inl, inr, Option, none, some, List, [], ◌∷◌, ◌++◌, arith,
}
use hermit_kernel.Base.Tests.{ltb, Bool-cases, lt→ltb, ltb→lt}
use hermit_kernel.Base.Lists.{length, get_or-replicate, length-set, set, get_or_out}
use hermit_kernel.Base.Bits.{bit, bit-zero, set_bit}
use hermit_kernel.Task.Types.{Tasks}
use hermit_kernel.Task.Levels.{
  no_priorities, msb, msb-IsHighest, IsHighest, level, filled, Records, Records-IsWord, order,
  order-take, order-none, empty_of_filled, cons_of_filled, filled_le, Records-set_bit,
  Records-clear_bit,
}
use hermit_kernel.Task.Levels.Priority.{
  insert, IsSorted, AtLevel, IsSorted-set, IsSorted-append, order-append,
}
use hermit_kernel.Task.ReadyQueue.{PriorityTaskQueue, new, push, pop_from_queue, cut_level}

abbrev pub prio_of : Tasks → ℕ → ℕ
prio_of st r = (st r).prio

pub record IsValid (st : Tasks) (q : PriorityTaskQueue) : Type 0 where
  pub size : length q.queues ≡ no_priorities
  pub recorded : Records q.prio_bitmap q.queues
  pub sorted : IsSorted (prio_of st) q.queues

-- The references in the order in which `pop` returns them.
abbrev pub waiting : PriorityTaskQueue → List ℕ
waiting q = order no_priorities q.queues

pub new-IsValid : (st : Tasks) → IsValid st new
unfolding new
new-IsValid st = record {
  size = refl;
  recorded = λ j. bit-zero j ∙ sym (ap filled (get_or-replicate no_priorities j []));
  sorted = λ j. rw (get_or-replicate {A = List ℕ} no_priorities j []) tt;
}

-- What `push` does to a valid queue.
abbrev pub Pushes : Tasks → ℕ → PriorityTaskQueue → Type 0
Pushes st r q =
    (q' : PriorityTaskQueue) × (push st r q ≡ some q')
    × IsValid st q'
    × (waiting q' ≡ insert (prio_of st) r (waiting q))

pub push_task_refines :
    (st : Tasks) (r : ℕ) (q : PriorityTaskQueue)
    → (st r).prio < no_priorities
    → IsValid st q
    → Pushes st r q
unfolding push
push_task_refines st r q l v =
    let i = (st r).prio in
    let b : i < length q.queues = omega (arith, v.size) in
    (
      record {
        queues = set q.queues i (level q.queues i ++ r ∷ []);
        prio_bitmap = set_bit q.prio_bitmap i;
      },
      rw (lt→ltb i (length q.queues) b),
      record {
        size = length-set q.queues i (level q.queues i ++ r ∷ []) ∙ v.size;
        recorded = Records-set_bit q.prio_bitmap q.queues i (level q.queues i) r b v.recorded;
        sorted = IsSorted-append (prio_of st) q.queues i r b refl v.sorted;
      },
      order-append (prio_of st) no_priorities i q.queues r l b refl v.sorted,
    )

pub push-IsValid :
    (st : Tasks) (r : ℕ) {q q' : PriorityTaskQueue}
    → (st r).prio < no_priorities
    → IsValid st q
    → push st r q ≡ some q'
    → IsValid st q'
push-IsValid st r {q} {q'} l v e =
    let (q'', e', v', w) = push_task_refines st r q l v in
    let same : q'' ≡ q' = cc in subst (IsValid st) same v'

-- What taking the first reference does to a valid queue.
abbrev pub Pops : Tasks → PriorityTaskQueue → Option (Option ℕ × PriorityTaskQueue) → Type 0
Pops st q out =
    (r : ℕ) × (q' : PriorityTaskQueue) × (out ≡ some (some r, q'))
    × IsValid st q'
    × (waiting q ≡ r ∷ waiting q')

-- The highest filled level, taken from.
take_level :
    (st : Tasks) (q : PriorityTaskQueue) (i h : ℕ) (xs : List ℕ)
    → IsValid st q
    → i < length q.queues
    → level q.queues i ≡ h ∷ xs
    → ((j : ℕ) → i < j → level q.queues j ≡ [])
    → Pops st q (pop_from_queue q i)
unfolding pop_from_queue
take_level st q i h xs v b e above =
    let e' : filled (level q.queues i) ≡ 1 = ap filled e in
    let s : AtLevel (prio_of st) i (h ∷ xs) = rw e at (v.sorted i) in
    (
      h,
      cut_level q i xs,
      rw (lt→ltb i (length q.queues) b, e),
      record {
        size = length-set q.queues i xs ∙ v.size;
        recorded =
            Records-clear_bit q.prio_bitmap q.queues i xs v.size (omega (arith, v.size))
              (omega (arith, filled_le xs)) v.recorded;
        sorted = IsSorted-set (prio_of st) q.queues i xs b s.1 v.sorted;
      },
      order-take no_priorities i q.queues h xs (omega (arith, v.size)) b e above,
    )

-- A digit that is set belongs to a level of the array.
in_array :
    (st : Tasks) (q : PriorityTaskQueue) (i : ℕ)
    → IsValid st q
    → bit i q.prio_bitmap ≡ 1
    → i < length q.queues
in_array st q i v set = elim (Bool-cases (ltb i (length q.queues))) [
  | inl e ↦ ltb→lt i (length q.queues) e
  | inr e ↦
      absurd (omega (arith, v.recorded i, ap filled (get_or_out q.queues i [] (ground arith))))
]

level_above :
    (st : Tasks) (q : PriorityTaskQueue) (i : ℕ)
    → IsValid st q
    → IsHighest q.prio_bitmap i
    → (j : ℕ) → i < j
    → level q.queues j ≡ []
level_above st q i v (set, above) j l =
    empty_of_filled (level q.queues j) (sym (v.recorded j) ∙ above j l)

pub pop_level :
    (st : Tasks) (q : PriorityTaskQueue) (i : ℕ)
    → IsValid st q
    → IsHighest q.prio_bitmap i
    → Pops st q (pop_from_queue q i)
pop_level st q i v h =
    let (r, xs, e) = cons_of_filled (level q.queues i) (sym (v.recorded i) ∙ h.0) in
    take_level st q i r xs v (in_array st q i v h.0) e (level_above st q i v h)

-- The bitmap of a valid queue is zero exactly if nothing waits, and otherwise its highest digit is
-- the priority of the first that waits.
pub data Highest (st : Tasks) (q : PriorityTaskQueue) : Type 0 where
  nothing : msb q.prio_bitmap ≡ none → q.prio_bitmap ≡ 0 → waiting q ≡ [] → Highest st q
  first :
      (i r : ℕ) (xs : List ℕ)
      → msb q.prio_bitmap ≡ some i
      → IsHighest q.prio_bitmap i
      → waiting q ≡ r ∷ xs
      → (st r).prio ≡ i
      → Highest st q

first_prio :
    (st : Tasks) (q : PriorityTaskQueue) (i : ℕ)
    → IsValid st q
    → IsHighest q.prio_bitmap i
    → (r : ℕ) × (xs : List ℕ) × (waiting q ≡ r ∷ xs) × ((st r).prio ≡ i)
first_prio st q i v h =
    let (r, xs, e) = cons_of_filled (level q.queues i) (sym (v.recorded i) ∙ h.0) in
    let b = in_array st q i v h.0 in
    let s : AtLevel (prio_of st) i (r ∷ xs) = rw e at (v.sorted i) in
    (
      r,
      order no_priorities (set q.queues i xs),
      order-take no_priorities i q.queues r xs (omega (arith, v.size)) b e (level_above st q i v h),
      s.0,
    )

pub IsValid-Highest : (st : Tasks) (q : PriorityTaskQueue) → IsValid st q → Highest st q
IsValid-Highest st q v =
    elim (msb-IsHighest q.prio_bitmap (Records-IsWord q.prio_bitmap q.queues v.size v.recorded)) [
      | inl (z, e) ↦ nothing e z (
          order-none no_priorities q.queues
            (λ j. empty_of_filled (level q.queues j) (sym (v.recorded j) ∙ rw z (bit-zero j))))
      | inr (i, e, h) ↦ let (r, xs, w, p) = first_prio st q i v h in first i r xs e h w p
    ]
