-- ===== src/Blocked/Victim.antt =====
-- `select_eviction_victim` of src/scheduler/task/mod.rs: the waiting task that loses its slot.
use hermit_kernel.Base.{
  ℕ, ◌+◌, ◌<◌, ◌-◌, ◌^◌, ◌≡◌, refl, ap, inl, inr, Bool, true, false, ◌&&◌, ◌||◌, not, Option, none,
  some, List, [], ◌∷◌, arith,
}
use hermit_kernel.Base.Tests.{◌==◌, ltb, leb, if◌then◌else◌, Bool-cases, ◌>>=◌, ◌>>◌, assert}
use hermit_kernel.Base.Sort.{sort_by, find, least, IsTransitive, IsTotal, find-sort_by}
use hermit_kernel.Task.Types.{Task, Tasks, FrameLocation}
use hermit_kernel.Blocked.{BlockedTask, BlockedTaskQueue, is_blocked}

-- In microseconds.
abbrev last_touch_threshold : ℕ
last_touch_threshold = 10000

abbrev is_in_slot : FrameLocation → Bool
is_in_slot FrameLocation.in_slot = true
is_in_slot _ = false

abbrev has_slot : Option ℕ → Bool
has_slot none = false
has_slot (some i) = true

-- A task that waits with its frame in a slot.
abbrev pub is_resident : Task → Bool
is_resident t = is_in_slot t.frame_location && has_slot t.slot && is_blocked t.status

abbrev pub wake_key : Option ℕ → ℕ
wake_key none = 0
wake_key (some w) = 2 ^ 64 - 1 - w

-- A task and its key.
abbrev pub Candidate : Type 0
Candidate = ℕ × ℕ

-- The loop that collects the candidates.
pub collect : Tasks → ℕ → List BlockedTask → Option (List Candidate)
collect st exclude [] = some []
collect st exclude (x ∷ xs) = do
  let t = st x.task
  assert (not (t.id == exclude))
  candidates ← collect st exclude xs
  some (if is_resident t then (x.task, wake_key x.wakeup_time) ∷ candidates else candidates)

-- The order of the candidates: by their keys, and then by the time that they were last touched.
abbrev pub goes_first : Tasks → Candidate → Candidate → Bool
goes_first st a b = ltb a.1 b.1 || (a.1 == b.1 && leb (st a.0).last_touch (st b.0).last_touch)

abbrev pub is_stale : Tasks → ℕ → Candidate → Bool
is_stale st now a = leb last_touch_threshold (now - (st a.0).last_touch)

abbrev pub task_of : Option Candidate → Option ℕ
task_of none = none
task_of (some a) = some a.0

pub select_eviction_victim : BlockedTaskQueue → ℕ → ℕ → Option (Option ℕ)
unfolding collect sort_by find
select_eviction_victim q exclude now = do
  candidates ← collect q.tasks exclude q.list
  some (task_of (find (is_stale q.tasks now) (sort_by (goes_first q.tasks) candidates)))

-- Whether a task with the identifier waits.
unfoldable pub waits_id : Tasks → ℕ → List BlockedTask → Bool
waits_id st id [] = false
waits_id st id (x ∷ xs) = (st x.task).id == id || waits_id st id xs

-- The waiting tasks with their frames in slots, with their keys.
unfoldable pub residents : Tasks → List BlockedTask → List Candidate
residents st [] = []
residents st (x ∷ xs) =
    let rest = residents st xs in
    if is_resident (st x.task) then (x.task, wake_key x.wakeup_time) ∷ rest else rest

collect_lem :
    (st : Tasks) (exclude : ℕ) (xs : List BlockedTask)
    → collect st exclude xs ≡ (if waits_id st exclude xs then none else some (residents st xs))
unfolding collect waits_id residents
collect_lem st exclude [] = refl
collect_lem st exclude (x ∷ xs) = elim (Bool-cases ((st x.task).id == exclude)) [
  | inl e ↦ rw e refl
  | inr e ↦ elim (Bool-cases (waits_id st exclude xs)) [
    | inl f ↦ rw (e, collect_lem st exclude xs, f) refl
    | inr f ↦ rw (e, collect_lem st exclude xs, f) refl
  ]
]

goes_first-IsTransitive : (st : Tasks) → IsTransitive (goes_first st)
goes_first-IsTransitive st a b c h k = ground arith

goes_first-IsTotal : (st : Tasks) → IsTotal (goes_first st)
goes_first-IsTotal st a b h = ground arith

pub select_eviction_victim-least :
    (q : BlockedTaskQueue) (exclude now : ℕ)
    → select_eviction_victim q exclude now ≡ (
        if waits_id q.tasks exclude q.list
        then none
        else some (
            task_of (least (goes_first q.tasks) (is_stale q.tasks now) (residents q.tasks q.list))))
unfolding select_eviction_victim
select_eviction_victim-least q exclude now = elim (Bool-cases (waits_id q.tasks exclude q.list)) [
  | inl e ↦ rw (collect_lem q.tasks exclude q.list, e) refl
  | inr e ↦
      rw (collect_lem q.tasks exclude q.list, e)
        (ap (λ o. some (task_of o))
          (find-sort_by (goes_first q.tasks) (goes_first-IsTransitive q.tasks)
            (goes_first-IsTotal q.tasks) (is_stale q.tasks now) (residents q.tasks q.list)))
]

-- A deadline as a word, where no deadline counts as the latest.
abbrev pub deadline : Option ℕ → ℕ
deadline none = 2 ^ 64 - 1
deadline (some w) = w

abbrev pub candidate : BlockedTask → Candidate
candidate x = (x.task, wake_key x.wakeup_time)

key_deadline : (w : Option ℕ) → deadline w < 2 ^ 64 → wake_key w + deadline w ≡ 2 ^ 64 - 1
key_deadline none h = refl
key_deadline (some w) h = omega arith

-- The choice of a victim panics exactly if the task that needs the slot waits itself. Else it is
-- the least stale candidate, of several the first in the queue, where one goes before another if
-- its deadline is later, no deadline being the latest, or if it is the same and it was not touched
-- later; stale is what was last touched at least 10 ms ago.
pub select_eviction_victim_lem :
    (q : BlockedTaskQueue) (exclude now : ℕ) (x y : BlockedTask)
    → deadline x.wakeup_time < 2 ^ 64
    → deadline y.wakeup_time < 2 ^ 64
    → (select_eviction_victim q exclude now ≡ (
        if waits_id q.tasks exclude q.list
        then none
        else some (
            task_of
              (least (goes_first q.tasks) (is_stale q.tasks now) (residents q.tasks q.list)))))
      × (goes_first q.tasks (candidate x) (candidate y) ≡ (
          ltb (deadline y.wakeup_time) (deadline x.wakeup_time)
          || (deadline x.wakeup_time == deadline y.wakeup_time
              && leb (q.tasks x.task).last_touch (q.tasks y.task).last_touch)))
      × (is_stale q.tasks now (candidate x) ≡ leb ((q.tasks x.task).last_touch + 10000) now)
select_eviction_victim_lem q exclude now x y h k =
    let key_x = key_deadline x.wakeup_time h in
    let key_y = key_deadline y.wakeup_time k in
    (select_eviction_victim-least q exclude now, ground (arith, key_x, key_y), ground arith)
