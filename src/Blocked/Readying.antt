-- ===== src/Blocked/Readying.antt =====
-- Waking tasks in turn and pushing them to the ready queue.
use mathlib.Core.Path.{subst}
use hermit_kernel.Base.{
  ℕ, ◌<◌, ◌≡◌, refl, ap, sym, ◌∙◌, fun_ext, inl, inr, Bool, true, false, some, List, [], ◌∷◌, arith,
}
use hermit_kernel.Base.Tests.{◌==◌, if◌then◌else◌, Bool-cases}
use hermit_kernel.Base.Lists.{All}
use hermit_kernel.Task.Types.{Task, Tasks}
use hermit_kernel.Task.Levels.{no_priorities}
use hermit_kernel.Task.Levels.Priority.{IsSorted, insert}
use hermit_kernel.Task.ReadyQueue.{PriorityTaskQueue, push as push_ready}
use hermit_kernel.Task.ReadyQueue.Order.{
  IsValid as IsValidReady, prio_of, waiting, push_task_refines,
}
use hermit_kernel.Blocked.{BlockedTask, is_blocked, wake_all}
use hermit_kernel.Blocked.Wakeup.{
  IsWakeable, mark_ready_lem, becomes_ready, woken, is_being_evicted,
}

-- A task that can be woken and made ready.
abbrev pub IsReadyable : ℕ → Task → Type 0
IsReadyable core t = IsWakeable core t × (t.prio < no_priorities)

woken-IsReadyable : (core : ℕ) (t : Task) → IsReadyable core t → IsReadyable core (woken t)
woken-IsReadyable core t h = elim (Bool-cases (is_blocked t.status)) [
  | inl e ↦ elim (Bool-cases (is_being_evicted t.frame_location)) [
    | inl f ↦ rw (e, f) ((h.0.0, h.0.1), h.1)
    | inr f ↦ rw (e, f) ((h.0.0, refl), h.1)
  ]
  | inr e ↦ rw e h
]

woken_prio : (t : Task) → (woken t).prio ≡ t.prio
woken_prio t = elim (Bool-cases (is_blocked t.status)) [
  | inl e ↦ elim (Bool-cases (is_being_evicted t.frame_location)) [
    | inl f ↦ rw (e, f) refl
    | inr f ↦ rw (e, f) refl
  ]
  | inr e ↦ rw e refl
]

-- The store after a wake.
abbrev pub IsAfter : Tasks → ℕ → Tasks → Type 0
IsAfter st r st' = (x : ℕ) → st' x ≡ (if x == r then woken (st r) else st x)

after-prio : (st st' : Tasks) (r : ℕ) → IsAfter st r st' → (x : ℕ) → prio_of st' x ≡ prio_of st x
after-prio st st' r h x = elim (Bool-cases (x == r)) [
  | inl e ↦
      let same : x ≡ r = ground arith in
      ap (λ t. t.prio) (h x) ∙ rw e (woken_prio (st r) ∙ sym (ap (prio_of st) same))
  | inr e ↦ ap (λ t. t.prio) (h x) ∙ rw e refl
]

pub after-IsReadyable :
    (core : ℕ) (st st' : Tasks) (r x : ℕ)
    → IsAfter st r st'
    → IsReadyable core (st r)
    → IsReadyable core (st x)
    → IsReadyable core (st' x)
after-IsReadyable core st st' r x h k l = elim (Bool-cases (x == r)) [
  | inl e ↦ subst (IsReadyable core) (sym (h x)) (rw e (woken-IsReadyable core (st r) k))
  | inr e ↦ subst (IsReadyable core) (sym (h x)) (rw e l)
]

after-AreReadyable :
    (core : ℕ) (st st' : Tasks) (r : ℕ) (xs : List BlockedTask)
    → IsAfter st r st'
    → IsReadyable core (st r)
    → All (λ x. IsReadyable core (st x.task)) xs
    → All (λ x. IsReadyable core (st' x.task)) xs
after-AreReadyable core st st' r [] h k all = tt
after-AreReadyable core st st' r (x ∷ xs) h k all = (
  after-IsReadyable core st st' r x.task h k all.0,
  after-AreReadyable core st st' r xs h k all.1,
)

pub valid_after :
    (st st' : Tasks) (r : ℕ) (ready : PriorityTaskQueue)
    → IsAfter st r st'
    → IsValidReady st ready
    → IsValidReady st' ready
valid_after st st' r ready h v = record {
  size = v.size;
  recorded = v.recorded;
  sorted = subst (λ p. IsSorted p ready.queues) (sym (fun_ext (after-prio st st' r h))) v.sorted;
}

-- What waking the tasks in turn does.
abbrev WakesAll : ℕ → List BlockedTask → Tasks → PriorityTaskQueue → Type 0
WakesAll core xs st ready =
    (st' : Tasks) × (ready' : PriorityTaskQueue) × (wake_all core xs st ready ≡ some (st', ready'))
    × IsValidReady st' ready'

-- The ready queue after a task may have been pushed.
abbrev pub Readied : Bool → Tasks → ℕ → PriorityTaskQueue → Type 0
Readied b st r ready =
    (ready' : PriorityTaskQueue) × ((if b then push_ready st r ready else some ready) ≡ some ready')
    × IsValidReady st ready'
    × (waiting ready' ≡ (if b then insert (prio_of st) r (waiting ready) else waiting ready))

pub ready_lem :
    (b : Bool) (st : Tasks) (r : ℕ) (ready : PriorityTaskQueue)
    → prio_of st r < no_priorities
    → IsValidReady st ready
    → Readied b st r ready
ready_lem true st r ready h v =
    let (ready', e, v', order) = push_task_refines st r ready h v in (ready', e, v', order)
ready_lem false st r ready h v = (ready, refl, v, refl)

pub wake_all_lem :
    (core : ℕ) (xs : List BlockedTask) (st : Tasks) (ready : PriorityTaskQueue)
    → All (λ x. IsReadyable core (st x.task)) xs
    → IsValidReady st ready
    → WakesAll core xs st ready
unfolding wake_all
wake_all_lem core [] st ready h v = (st, ready, refl, v)
wake_all_lem core (x ∷ xs) st ready h v =
    let (st', m, own, after) = mark_ready_lem core st x.task h.0.0 in
    let low = (after-IsReadyable core st st' x.task x.task after h.0 h.0).1 in
    let (ready', e, v', _) =
      ready_lem (becomes_ready (st x.task)) st' x.task ready low
        (valid_after st st' x.task ready after v) in
    let (last, queue, f, w) =
      wake_all_lem core xs st' ready' (after-AreReadyable core st st' x.task xs after h.0 h.1) v' in
    (last, queue, rw (m, e, f) refl, w)
