-- ===== src/Supervisor.antt =====
-- src/scheduler/supervisor.rs: the restart policy of each entry point and its counter. The current
-- time, in microseconds, is an argument; a window is its `as_micros`.
pub mod Windows
mod Tests
use hermit_kernel.Base.{
  ℕ, ◌+◌, ◌-◌, ◌%◌, ◌^◌, min, Bool, true, false, ◌&&◌, not, Option, none, some, List, [], ◌∷◌,
}
use hermit_kernel.Base.Tests.{◌==◌, ltb, leb, if◌then◌else◌, ◌>>=◌, ◌>>◌, assert}
use hermit_kernel.Base.Lists.{length, get_elem?, set}
use hermit_kernel.Task.Types.{EntryPointId}

pub data RestartPolicy : Type 0 where
  never always : RestartPolicy
  max_n : ℕ → ℕ → RestartPolicy

pub record RestartEntry : Type 0 where
  pub policy : RestartPolicy
  pub restart_count : ℕ
  pub window_start : ℕ

pub new : RestartPolicy → RestartEntry
new policy = record { policy = policy; restart_count = 0; window_start = 0 }

-- `saturating_add(1)` of a `u32`
abbrev pub saturating_suc : ℕ → ℕ
saturating_suc n = min (n + 1) (2 ^ 32 - 1)

-- The window slides when it was left, and begins when it was never begun.
pub slide : RestartEntry → ℕ → ℕ → RestartEntry
slide e window_us now =
    if not (window_us == 0) && (not (e.window_start == 0) && leb window_us (now - e.window_start))
    then record e { restart_count = 0; window_start = now }
    else if e.window_start == 0
    then record e { window_start = now }
    else e

-- A restart within the limit is counted.
pub count_restart : RestartEntry → ℕ → Bool × RestartEntry
count_restart e count =
    if ltb e.restart_count count
    then (true, record e { restart_count = saturating_suc e.restart_count })
    else (false, e)

pub may_restart : RestartEntry → ℕ → Bool × RestartEntry
unfolding slide count_restart
may_restart e now = elim e.policy [
  | RestartPolicy.never ↦ (false, e)
  | RestartPolicy.always ↦ (true, record e { restart_count = saturating_suc e.restart_count })
  | RestartPolicy.max_n count window ↦ count_restart (slide e (window % 2 ^ 64) now) count
]

abbrev pub RestartTable : Type 0
RestartTable = List RestartEntry

pub restart_table : RestartTable
unfolding new
restart_table = new RestartPolicy.never ∷ new RestartPolicy.never ∷ []

-- `id as usize`
abbrev pub discriminant : EntryPointId → ℕ
discriminant EntryPointId.idle = 0
discriminant EntryPointId.app_task = 1

pub should_restart : RestartTable → EntryPointId → ℕ → Option (Bool × RestartTable)
unfolding may_restart
should_restart table id now = do
  let idx = discriminant id
  assert (ltb idx (length table))
  entry ← get_elem? table idx
  let (permitted, entry') = may_restart entry now
  some (permitted, set table idx entry')

-- The entry after one death at each time, and how many of them may be followed by a restart.
pub deaths : RestartEntry → List ℕ → ℕ × RestartEntry
deaths e [] = (0, e)
deaths e (now ∷ later) =
    let (permitted, e') = may_restart e now in
    let (n, last) = deaths e' later in (if permitted then n + 1 else n, last)
