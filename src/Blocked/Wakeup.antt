-- ===== src/Blocked/Wakeup.antt =====
-- The queue of blocked tasks and the timer that serves it.
use mathlib.Core.Path.{subst}
use hermit_kernel.Base.{
  ℕ, ◌≤◌, ◌≡◌, refl, ap, sym, not, inl, inr, Bool, true, false, ◌&&◌, ◌||◌, Option, none, some,
  List, [], ◌∷◌, ◌++◌, arith,
}
use hermit_kernel.Base.Tests.{◌==◌, if◌then◌else◌, Bool-cases, ==_refl, ==_iff}
use hermit_kernel.Task.Types.{TaskStatus, FrameLocation, Task, Tasks}
use hermit_kernel.Timers.{Timers, Source}
use hermit_kernel.Timers.Armed.{IsArmed, time_of, create_timer_abs-IsArmed}
use hermit_kernel.Blocked.{
  BlockedTask, BlockedTaskQueue, with_task, is_running, is_blocked, is_ready, wake, mark_ready,
  place, set_timer, front_time, add,
}
use hermit_kernel.Blocked.Deadlines.{IsOrdered, IsLegal, AreLegal, Places, place-Places, All_insert}

-- The timer of the scheduler is set for the deadline or for an earlier time.
abbrev pub IsCovered : Timers → Option ℕ → Type 0
IsCovered t none = Unit
IsCovered t (some wt) = time_of t.list Source.scheduler ≤ wt

-- The deadlines are in order, and the hardware timer fires at the first of them or before it.
pub record IsValid (q : BlockedTaskQueue) : Type 0 where
  pub ordered : IsOrdered q.list
  pub legal : AreLegal q.list
  pub is_armed : IsArmed q.timers
  pub covered : IsCovered q.timers (front_time q.list)

-- What setting the timer for a deadline does.
abbrev SetsTimer : Timers → Option ℕ → Type 0
SetsTimer t o =
    (t' : Timers) × (set_timer t o ≡ some t')
    × IsArmed t'
    × IsCovered t' o
    × (time_of t'.list Source.scheduler ≤ time_of t.list Source.scheduler)

pub set_timer_lem : (t : Timers) (o : Option ℕ) → IsArmed t → IsLegal o → SetsTimer t o
set_timer_lem t none v h = (t, refl, v, tt, omega arith)
set_timer_lem t (some wt) v h =
    let c = create_timer_abs-IsArmed t Source.scheduler wt v h in
    (c.timers, c.returns, c.is_armed, omega (arith, c.own), omega (arith, c.own))

pub sooner :
    (t t' : Timers) (o : Option ℕ)
    → time_of t'.list Source.scheduler ≤ time_of t.list Source.scheduler
    → IsCovered t o
    → IsCovered t' o
sooner t t' none h c = tt
sooner t t' (some wt) h c = omega arith

covers_placed :
    (t : Timers) (before after : List BlockedTask) (node : BlockedTask)
    → IsCovered t (front_time (before ++ after))
    → IsCovered t node.wakeup_time
    → IsCovered t (front_time (before ++ node ∷ after))
covers_placed t [] after node c d = d
covers_placed t (x ∷ before) after node c d = c

-- What blocking a task does to a valid queue.
pub record Adds (q : BlockedTaskQueue) (r : ℕ) (o : Option ℕ) (out : Option BlockedTaskQueue)
    : Type 0 where
  pub queue : BlockedTaskQueue
  pub returns : out ≡ some queue
  pub is_valid : IsValid queue
  pub places : Places o (record { task = r; wakeup_time = o }) q.list queue.list
  pub tasks : queue.tasks ≡ with_task q.tasks r (record (q.tasks r) { status = TaskStatus.blocked })

-- Blocking a running task with a legal deadline, or with none, does not panic. It stands behind all
-- tasks with no later deadline and before all others, in a valid queue, and is blocked.
pub add_lem :
    (q : BlockedTaskQueue) (r : ℕ) (o : Option ℕ)
    → IsValid q
    → IsLegal o
    → is_running (q.tasks r).status ≡ true
    → Adds q r o (add q r o)
unfolding add
add_lem q r o v h running =
    let (t', e, armed, cov, le) = set_timer_lem q.timers o v.is_armed h in
    let p = place-Places o r q.list v.ordered in
    let node : BlockedTask = record { task = r; wakeup_time = o } in
    let c =
      subst (λ xs. IsCovered t' (front_time xs)) p.was
        (sooner q.timers t' (front_time q.list) le v.covered) in
    let l = subst AreLegal p.was v.legal in
    record {
      queue = record {
        list = place o node q.list;
        tasks = with_task q.tasks r (record (q.tasks r) { status = TaskStatus.blocked });
        timers = t';
      };
      returns = rw (running, e) refl;
      is_valid = record {
        ordered = p.is_ordered;
        legal =
            subst AreLegal (sym p.is)
              (All_insert (λ x. IsLegal (x.wakeup_time)) p.before p.after node h l);
        is_armed = armed;
        covered =
            subst (λ xs. IsCovered t' (front_time xs)) (sym p.is)
              (covers_placed t' p.before p.after node c cov);
      };
      places = p;
      tasks = refl;
    }

-- A task that can be woken on a core.
abbrev pub IsWakeable : ℕ → Task → Type 0
IsWakeable core t =
    ((t.core_id == core) ≡ true) × ((is_blocked t.status || is_ready t.status) ≡ true)

abbrev pub is_being_evicted : FrameLocation → Bool
is_being_evicted FrameLocation.being_evicted = true
is_being_evicted _ = false

-- Whether a wake makes the task ready.
abbrev pub becomes_ready : Task → Bool
becomes_ready t = is_blocked t.status && not (is_being_evicted t.frame_location)

-- The task after a wake.
abbrev pub woken : Task → Task
woken t =
    if becomes_ready t
    then record t { status = TaskStatus.ready }
    else if is_blocked t.status
    then record t { wake_pending = true }
    else t

-- What a wake of the task `r` returns and makes of it.
abbrev pub Marks : Tasks → ℕ → Option (Bool × Tasks) → Type 0
Marks st r out =
    (st' : Tasks) × (out ≡ some (becomes_ready (st r), st'))
    × (st' r ≡ woken (st r))
    × ((x : ℕ) → st' x ≡ (if x == r then woken (st r) else st x))

ready_not_blocked : (s : TaskStatus) → is_ready s ≡ true → is_blocked s ≡ false
ready_not_blocked TaskStatus.ready h = refl
ready_not_blocked TaskStatus.invalid h = absurd cc
ready_not_blocked TaskStatus.running h = absurd cc
ready_not_blocked TaskStatus.blocked h = absurd cc
ready_not_blocked TaskStatus.finished h = absurd cc
ready_not_blocked TaskStatus.idle h = absurd cc

blocked_of_not_ready :
    (s : TaskStatus)
    → (is_blocked s || is_ready s) ≡ true
    → is_ready s ≡ false
    → is_blocked s ≡ true
blocked_of_not_ready TaskStatus.blocked h k = refl
blocked_of_not_ready TaskStatus.ready h k = absurd cc
blocked_of_not_ready TaskStatus.invalid h k = absurd cc
blocked_of_not_ready TaskStatus.running h k = absurd cc
blocked_of_not_ready TaskStatus.finished h k = absurd cc
blocked_of_not_ready TaskStatus.idle h k = absurd cc

wake-woken :
    (l : FrameLocation) (t : Task)
    → t.frame_location ≡ l
    → is_blocked t.status ≡ true
    → ((wake l t).0 ≡ becomes_ready t) × ((wake l t).1 ≡ woken t)
unfolding wake
wake-woken FrameLocation.being_evicted t e h = rw (h, e) (refl, refl)
wake-woken FrameLocation.evicted t e h = rw (h, e) (refl, refl)
wake-woken FrameLocation.in_slot t e h = rw (h, e) (refl, refl)

same_entry : (st : Tasks) (r x : ℕ) → st x ≡ (if x == r then st r else st x)
same_entry st r x = elim (Bool-cases (x == r)) [
  | inl e ↦ rw e (ap st ((==_iff x r).0 e))
  | inr e ↦ rw e refl
]

pub mark_ready_lem :
    (core : ℕ) (st : Tasks) (r : ℕ) → IsWakeable core (st r) → Marks st r (mark_ready core st r)
unfolding mark_ready
mark_ready_lem core st r h = elim (Bool-cases (is_ready (st r).status)) [
  | inl e ↦
      let b = ready_not_blocked (st r).status e in
      (st, rw (h.0, h.1, e, b) refl, rw b refl, λ x. rw b (same_entry st r x))
  | inr e ↦
      let b = blocked_of_not_ready (st r).status h.1 e in
      let (w, m) = wake-woken (st r).frame_location (st r) refl b in
      (
        with_task st r (wake (st r).frame_location (st r)).1,
        rw (h.0, h.1, e, w) refl,
        rw (==_refl r) m,
        λ x. ap (λ t. if x == r then t else st x) m,
      )
]
