-- ===== src/Scheduler/Wakeups.antt =====
-- Waking tasks by their handles: src/scheduler/mod.rs, custom_wakeup.
use mathlib.Core.Path.{subst}
use hermit_kernel.Base.{
  ℕ, ◌≡◌, refl, ap, sym, ◌∙◌, inl, inr, arith, true, false, Option, none, some, List, [], ◌∷◌, ◌++◌,
}
use hermit_kernel.Base.Tests.{◌==◌, if◌then◌else◌, ◌>>=◌, Bool-cases}
use hermit_kernel.Task.Types.{Task, Tasks, TaskHandle}
use hermit_kernel.Task.ReadyQueue.Order.{IsValid as IsValidReady, prio_of, waiting}
use hermit_kernel.Task.Levels.Priority.{insert}
use hermit_kernel.Task.HandleQueue.{any_id}
use hermit_kernel.Blocked.{BlockedTask, is_blocked}
use hermit_kernel.Blocked.Wakeup.{IsValid, becomes_ready, woken, is_being_evicted}
use hermit_kernel.Blocked.Waking.{Absent, custom_wakeup_lem, custom_wakeup-Absent}
use hermit_kernel.Blocked.Readying.{IsReadyable, IsAfter, after-IsReadyable, valid_after, ready_lem}
use hermit_kernel.Scheduler.{PerCoreScheduler, task_at, custom_wakeup}

-- The tasks with these handles are woken in turn.
unfoldable pub wake_tasks : ℕ → PerCoreScheduler → List TaskHandle → Option PerCoreScheduler
wake_tasks core s [] = some s
wake_tasks core s (task ∷ tasks) = custom_wakeup core s task >>= λ s'. wake_tasks core s' tasks

-- The task of this node can be woken by the handle.
pub record Waits (core : ℕ) (s : PerCoreScheduler) (task : TaskHandle) (before : List BlockedTask)
    (node : BlockedTask) (after : List BlockedTask) : Type 0 where
  pub is_valid : IsValid s.blocked_tasks
  pub is_valid_ready : IsValidReady s.blocked_tasks.tasks s.ready_queue
  pub list : s.blocked_tasks.list ≡ before ++ node ∷ after
  pub absent : Absent s.blocked_tasks.tasks task.id before
  pub found : ((task_at s node.task).id == task.id) ≡ true
  pub is_readyable : IsReadyable core (task_at s node.task)

-- What the wake of a task that waits does: its node leaves the blocked tasks, it is made ready, or
-- its wake is noted while it is being evicted, and in the first case the ready queue takes it by
-- priority and age. Nothing else changes, and both queues stay valid.
pub record IsWoken (s : PerCoreScheduler) (task : TaskHandle) (s' : PerCoreScheduler) : Type 0 where
  pub before : List BlockedTask
  pub node : BlockedTask
  pub after : List BlockedTask
  pub found : ((task_at s node.task).id == task.id) ≡ true
  pub list : s.blocked_tasks.list ≡ before ++ node ∷ after
  pub left : s'.blocked_tasks.list ≡ before ++ after
  pub tasks : IsAfter s.blocked_tasks.tasks node.task s'.blocked_tasks.tasks
  pub ready : waiting s'.ready_queue ≡ (
      if becomes_ready (task_at s node.task)
      then insert (prio_of s'.blocked_tasks.tasks) node.task (waiting s.ready_queue)
      else waiting s.ready_queue)
  pub slots : s'.slots ≡ s.slots
  pub is_valid : IsValid s'.blocked_tasks
  pub is_valid_ready : IsValidReady s'.blocked_tasks.tasks s'.ready_queue

-- The wake of a task that waits does not panic.
pub custom_wakeup_wakes :
    (core : ℕ) (s : PerCoreScheduler) (task : TaskHandle) (before after : List BlockedTask)
    (node : BlockedTask)
    → Waits core s task before node after
    → (s' : PerCoreScheduler) × (custom_wakeup core s task ≡ some s')
      × (w : IsWoken s task s') × (w.node ≡ node)
      × (w.before ++ w.after ≡ before ++ after)
unfolding custom_wakeup
custom_wakeup_wakes core s task before after node w =
    let b = s.blocked_tasks in
    let d =
      custom_wakeup_lem core b task before after node w.is_valid w.list w.absent w.found
        w.is_readyable.0 in
    let low =
      (after-IsReadyable core b.tasks d.queue.tasks node.task node.task d.tasks w.is_readyable
        w.is_readyable).1 in
    let (ready, e, v, order) =
      ready_lem (becomes_ready (b.tasks node.task)) d.queue.tasks node.task s.ready_queue low
        (valid_after b.tasks d.queue.tasks node.task s.ready_queue d.tasks w.is_valid_ready) in
    (
      record s { blocked_tasks = d.queue; ready_queue = ready },
      rw (d.returns, e) refl,
      record {
        before = before;
        node = node;
        after = after;
        found = w.found;
        list = w.list;
        left = d.list;
        tasks = d.tasks;
        ready = order;
        slots = refl;
        is_valid = d.is_valid;
        is_valid_ready = v;
      },
      refl,
      refl,
    )

-- The tasks with these handles are woken, one after the other.
abbrev pub AreWoken : PerCoreScheduler → List TaskHandle → PerCoreScheduler → Type 0
AreWoken s [] s' = s' ≡ s
AreWoken s (task ∷ tasks) s' =
    (next : PerCoreScheduler) × IsWoken s task next × AreWoken next tasks s'

-- The wake of a task that does not wait panics.
pub wake_tasks-Absent :
    (core : ℕ) (s : PerCoreScheduler) (task : TaskHandle) (tasks : List TaskHandle)
    → Absent s.blocked_tasks.tasks task.id s.blocked_tasks.list
    → wake_tasks core s (task ∷ tasks) ≡ none
unfolding wake_tasks custom_wakeup
wake_tasks-Absent core s task tasks h = rw (custom_wakeup-Absent core s.blocked_tasks task h) refl

-- The first node of the task with an identifier is one that can be woken.
pub data IsFound (core : ℕ) (st : Tasks) (id : ℕ) : List BlockedTask → Type 0 where
  first :
      {x : BlockedTask} {xs : List BlockedTask}
      → ((st x.task).id == id) ≡ true
      → IsReadyable core (st x.task)
      → IsFound core st id (x ∷ xs)
  later :
      {x : BlockedTask} {xs : List BlockedTask}
      → ((st x.task).id == id) ≡ false
      → IsFound core st id xs
      → IsFound core st id (x ∷ xs)

found_at :
    (core : ℕ) (st : Tasks) (id : ℕ) (xs : List BlockedTask)
    → IsFound core st id xs
    → (before : List BlockedTask) × (node : BlockedTask) × (after : List BlockedTask) × (xs
        ≡ before ++ node ∷ after)
      × Absent st id before
      × (((st node.task).id == id) ≡ true)
      × IsReadyable core (st node.task)
found_at core st id [] f = elim f [ ]
found_at core st id (x ∷ xs) (first e r) = ([], x, xs, refl, tt, e, r)
found_at core st id (x ∷ xs) (later e f) =
    let (before, node, after, q, absent, found, r) = found_at core st id xs f in
    (x ∷ before, node, after, ap (◌∷◌ x) q, (e, absent), found, r)

-- Taking out the node of another task.
found_without :
    (core : ℕ) (st : Tasks) (id : ℕ) (before after : List BlockedTask) (node : BlockedTask)
    → ((st node.task).id == id) ≡ false
    → IsFound core st id (before ++ node ∷ after)
    → IsFound core st id (before ++ after)
found_without core st id [] after node n (first e r) = absurd (cc)
found_without core st id [] after node n (later e f) = f
found_without core st id (x ∷ before) after node n (first e r) = first e r
found_without core st id (x ∷ before) after node n (later e f) =
    later e (found_without core st id before after node n f)

woken_id : (t : Task) → (woken t).id ≡ t.id
woken_id t = elim (Bool-cases (is_blocked t.status)) [
  | inl e ↦ elim (Bool-cases (is_being_evicted t.frame_location)) [
    | inl f ↦ rw (e, f) refl
    | inr f ↦ rw (e, f) refl
  ]
  | inr e ↦ rw e refl
]

after_id : (st st' : Tasks) (r : ℕ) → IsAfter st r st' → (x : ℕ) → (st' x).id ≡ (st x).id
after_id st st' r h x = elim (Bool-cases (x == r)) [
  | inl e ↦
      let same : x ≡ r = ground arith in
      ap (λ t. t.id) (h x) ∙ rw e (woken_id (st r) ∙ ap (λ y. (st y).id) (sym same))
  | inr e ↦ ap (λ t. t.id) (h x) ∙ rw e refl
]

-- A wake of one task leaves the others as they were.
found_after :
    (core : ℕ) (st st' : Tasks) (r id : ℕ) (xs : List BlockedTask)
    → IsAfter st r st'
    → IsReadyable core (st r)
    → IsFound core st id xs
    → IsFound core st' id xs
found_after core st st' r id [] h k f = elim f [ ]
found_after core st st' r id (x ∷ xs) h k (first e l) =
    first (ap (λ i. i == id) (after_id st st' r h x.task) ∙ e)
      (after-IsReadyable core st st' r x.task h k l)
found_after core st st' r id (x ∷ xs) h k (later e f) =
    later (ap (λ i. i == id) (after_id st st' r h x.task) ∙ e)
      (found_after core st st' r id xs h k f)

-- The tasks with these handles are different ones that wait and can be woken.
abbrev pub AllWait : ℕ → Tasks → List BlockedTask → List TaskHandle → Type 0
AllWait core st xs [] = Unit
AllWait core st xs (task ∷ tasks) =
    IsFound core st task.id xs × (any_id task.id tasks ≡ false) × AllWait core st xs tasks

other_id : (i j k : ℕ) → (i == j) ≡ true → (k == j) ≡ false → (i == k) ≡ false
other_id i j k e n = ground arith

all_after :
    (core : ℕ) (st st' : Tasks) (before after : List BlockedTask) (node : BlockedTask) (id : ℕ)
    (tasks : List TaskHandle)
    → IsAfter st node.task st'
    → ((st node.task).id == id) ≡ true
    → IsReadyable core (st node.task)
    → any_id id tasks ≡ false
    → AllWait core st (before ++ node ∷ after) tasks
    → AllWait core st' (before ++ after) tasks
unfolding any_id
all_after core st st' before after node id [] h e k n w = tt
all_after core st st' before after node id (task ∷ tasks) h e k n w =
    elim (Bool-cases (task.id == id)) [
      | inl d ↦ absurd (ground arith)
      | inr d ↦ (
        found_after core st st' node.task task.id (before ++ after) h k (
            found_without core st task.id before after node
              (other_id (st node.task).id id task.id e d) w.0),
        w.1,
        all_after core st st' before after node id tasks h e k (ground arith) w.2,
      )
    ]

-- Tasks that wait can be woken in turn without a panic: each leaves the blocked tasks, is made ready
-- and joins the ready queue by priority and age, unless it is being evicted.
pub wake_tasks_lem :
    (core : ℕ) (s : PerCoreScheduler) (tasks : List TaskHandle)
    → IsValid s.blocked_tasks
    → IsValidReady s.blocked_tasks.tasks s.ready_queue
    → AllWait core s.blocked_tasks.tasks s.blocked_tasks.list tasks
    → (s' : PerCoreScheduler) × (wake_tasks core s tasks ≡ some s') × AreWoken s tasks s'
unfolding wake_tasks
wake_tasks_lem core s [] v r w = (s, refl, refl)
wake_tasks_lem core s (task ∷ tasks) v r w =
    let b = s.blocked_tasks in
    let (before, node, after, list, absent, found, k) = found_at core b.tasks task.id b.list w.0 in
    let (s', e, d, same, left) = custom_wakeup_wakes core s task before after node (record {
      is_valid = v;
      is_valid_ready = r;
      list = list;
      absent = absent;
      found = found;
      is_readyable = k;
    }) in
    let h =
      subst (λ (n : BlockedTask). IsAfter b.tasks n.task s'.blocked_tasks.tasks) same d.tasks in
    let rest =
      all_after core b.tasks s'.blocked_tasks.tasks before after node task.id tasks h found k w.1
        (subst (λ xs. AllWait core b.tasks xs tasks) list w.2) in
    let (last, e', ws) =
      wake_tasks_lem core s' tasks d.is_valid d.is_valid_ready
        (subst (λ xs. AllWait core s'.blocked_tasks.tasks xs tasks) (sym (d.left ∙ left)) rest) in
    (last, rw e e', (s', d, ws))
