-- ===== src/ObjectMap.antt =====
-- The table of file descriptors of a task: src/scheduler/mod.rs, insert_object, get_object,
-- dup_object, dup_object2 and remove_object. A descriptor is the 32-bit word of a `RawFd`, an object
-- that entries share is a number, and the table is a function. The search for a descriptor is on
-- fuel, which runs out with a panic.
pub mod Entries
mod Tests
use hermit_kernel.Base.{ℕ, zero, suc, ◌+◌, ◌-◌, ◌^◌, min, Bool, true, false, Option, none, some}
use hermit_kernel.Base.Tests.{◌==◌, if◌then◌else◌}
use hermit_kernel.Errno.{Errno, badf, inval, mfile, overflow}
use hermit_kernel.File.{Outcome, ok, err, panic}

abbrev pub Objects : Type 0
Objects = ℕ → Option ℕ

abbrev pub max_fd : ℕ
max_fd = 2 ^ 31 - 1

abbrev pub with_object : Objects → ℕ → Option ℕ → Objects
with_object m fd o = λ d. if d == fd then o else m d

-- `ok_or`
abbrev pub ok_or : Errno → Option ℕ → Outcome ℕ
ok_or e none = err e
ok_or e (some o) = ok o

abbrev pub contains_key : Option ℕ → Bool
contains_key none = false
contains_key (some o) = true

-- The loop from a descriptor on.
pub new_fd : ℕ → ℕ → Objects → Outcome ℕ
new_fd zero fd m = panic
new_fd (suc fuel) fd m =
    let rest = new_fd fuel (min (fd + 1) max_fd) m in
    if contains_key (m fd) then if fd == max_fd then err overflow else rest else ok fd

abbrev pub inserted : Objects → ℕ → Outcome ℕ → Outcome (ℕ × Objects)
inserted m o (ok fd) = ok (fd, with_object m fd (some o))
inserted m o (err e) = err e
inserted m o panic = panic

pub insert_object : ℕ → Objects → ℕ → Outcome (ℕ × Objects)
unfolding new_fd
insert_object fuel m o = inserted m o (new_fd fuel 0 m)

pub get_object : Objects → ℕ → Outcome ℕ
get_object m fd = ok_or badf (m fd)

-- An entry that is vacant gets the object.
abbrev pub insert_vacant : Objects → ℕ → ℕ → Option ℕ → Outcome (ℕ × Objects)
insert_vacant m fd o none = ok (fd, with_object m fd (some o))
insert_vacant m fd o (some old) = err mfile

abbrev pub duplicated : Objects → ℕ → Outcome ℕ → Outcome (ℕ × Objects)
duplicated m o (ok fd) = insert_vacant m fd o (m fd)
duplicated m o (err e) = err e
duplicated m o panic = panic

abbrev pub dup_found : ℕ → Objects → Option ℕ → Outcome (ℕ × Objects)
dup_found fuel m none = err inval
dup_found fuel m (some o) = duplicated m o (new_fd fuel 0 m)

pub dup_object : ℕ → Objects → ℕ → Outcome (ℕ × Objects)
unfolding new_fd
dup_object fuel m fd = dup_found fuel m (m fd)

abbrev pub dup2_found : Objects → ℕ → Option ℕ → Outcome (ℕ × Objects)
dup2_found m fd2 none = err badf
dup2_found m fd2 (some o) = insert_vacant m fd2 o (m fd2)

pub dup_object2 : Objects → ℕ → ℕ → Outcome (ℕ × Objects)
dup_object2 m fd1 fd2 = dup2_found m fd2 (m fd1)

abbrev pub removed : Objects → ℕ → Option ℕ → Outcome (ℕ × Objects)
removed m fd none = err badf
removed m fd (some o) = ok (o, with_object m fd none)

pub remove_object : Objects → ℕ → Outcome (ℕ × Objects)
remove_object m fd = removed m fd (m fd)
