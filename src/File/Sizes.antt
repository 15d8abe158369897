-- ===== src/File/Sizes.antt =====
-- The size of a file in its attributes, over every operation that changes the file.
use hermit_kernel.Base.{ℕ, ◌+◌, ◌≤◌, ◌≡◌, refl, sym, inl, inr, true, List, [], ◌∷◌, arith}
use hermit_kernel.Base.Tests.{ltb, leb, Bool-cases}
use hermit_kernel.Base.Lists.{length}
use hermit_kernel.Base.Int.{ℤ, pos, negsuc}
use hermit_kernel.File.{
  Outcome, ok, err, panic, RamFileInner, Timespec, SeekWhence, isize_max, in_isize, read, write,
  lseek, truncate, chmod, new_ram_file,
}
use hermit_kernel.File.Bytes.{length-resize}
use hermit_kernel.File.Write.{IsFile, write_lem, length-grow}
use hermit_kernel.File.Seek.{lseek_lem, moves}
use mathlib.Core.Path.{subst}

-- An operation on a file in memory, at a position, with the time.
pub data FileOp : Type 0 where
  reads : List ℕ → Timespec → FileOp
  writes : List ℕ → Timespec → FileOp
  seeks : (offset : ℤ) → in_isize offset ≡ true → SeekWhence → FileOp
  truncates : ℕ → FileOp
  chmods : ℕ → FileOp

-- The position and the file after an operation. After a panic they are as before.
pub apply : FileOp → ℕ × RamFileInner → ℕ × RamFileInner
apply (reads buf t) (at, f) = (read buf t at f).1.1
apply (writes buf t) (at, f) = (write buf t at f).1
apply (seeks offset small whence) (at, f) = (lseek offset whence at f).1
apply (truncates size) (at, f) = (at, (truncate size f).1)
apply (chmods mode) (at, f) = (at, chmod mode f)

pub apply_all : List FileOp → ℕ × RamFileInner → ℕ × RamFileInner
apply_all [] s = s
apply_all (op ∷ ops) s = apply_all ops (apply op s)

abbrev pub IsOpen : ℕ × RamFileInner → Type 0
IsOpen (at, f) = (at ≤ isize_max) × IsFile f

moves_bound :
    (r : Outcome ℤ) (at : ℕ) (f : RamFileInner)
    → at ≤ isize_max
    → IsFile (moves r at f).1
    → (moves r at f).0 ≤ isize_max
moves_bound (ok (pos n)) at f h v = let m = length-grow n f in omega (arith, v.1)
moves_bound (ok (negsuc n)) at f h v = h
moves_bound (err e) at f h v = h
moves_bound panic at f h v = h

read-IsOpen :
    (buf : List ℕ) (t : Timespec) (at : ℕ) (f : RamFileInner)
    → IsOpen (at, f)
    → IsOpen (read buf t at f).1.1
unfolding read
read-IsOpen buf t at f v = elim (Bool-cases (leb (length f.content) at)) [
  | inl e ↦ rw e v
  | inr e ↦ rw e (ground arith, v.1)
]

write-IsOpen :
    (buf : List ℕ) (t : Timespec) (at : ℕ) (f : RamFileInner)
    → IsOpen (at, f)
    → IsOpen (write buf t at f).1
unfolding write
write-IsOpen buf t at f v = elim (Bool-cases (ltb isize_max (at + length buf))) [
  | inl e ↦ rw e v
  | inr e ↦
      let w = write_lem buf t at f v.1 (ground arith) in
      subst (λ s. IsOpen s.1) (sym w.returns) (ground arith, w.is_file)
]

seek-IsOpen :
    (offset : ℤ) (whence : SeekWhence) (at : ℕ) (f : RamFileInner)
    → in_isize offset ≡ true
    → IsOpen (at, f)
    → IsOpen (lseek offset whence at f).1
seek-IsOpen offset whence at f small v =
    let (r, m, w, b) = lseek_lem offset whence at f 0 v.1 v.0 small in
    let r' = (lseek offset whence at f).0 in
    let is_file : IsFile (moves r' at f).1 = subst (λ s. IsFile s.1) m w in
    subst IsOpen (sym m) (moves_bound r' at f v.0 is_file, is_file)

truncate-IsOpen :
    (size at : ℕ) (f : RamFileInner) → IsOpen (at, f) → IsOpen (at, (truncate size f).1)
unfolding truncate
truncate-IsOpen size at f v = elim (Bool-cases (ltb isize_max size)) [
  | inl e ↦ rw e v
  | inr e ↦ rw (e, length-resize f.content size) (v.0, (refl, ground arith))
]

apply-IsOpen :
    (op : FileOp) (at : ℕ) (f : RamFileInner) → IsOpen (at, f) → IsOpen (apply op (at, f))
unfolding apply chmod
apply-IsOpen (reads buf t) at f v = read-IsOpen buf t at f v
apply-IsOpen (writes buf t) at f v = write-IsOpen buf t at f v
apply-IsOpen (seeks offset small whence) at f v = seek-IsOpen offset whence at f small v
apply-IsOpen (truncates size) at f v = truncate-IsOpen size at f v
apply-IsOpen (chmods mode) at f v = v

all-IsOpen : (ops : List FileOp) (s : ℕ × RamFileInner) → IsOpen s → IsOpen (apply_all ops s)
unfolding apply_all
all-IsOpen [] s v = v
all-IsOpen (op ∷ ops) s v = all-IsOpen ops (apply op s) (apply-IsOpen op s.0 s.1 v)

-- After any sequence of reads, writes, seeks, truncations and changes of mode on a new file, the
-- size in its attributes is the number of its bytes, and this and the position are at most
-- `isize::MAX`.
pub ops_keep_size :
    (ops : List FileOp) (mode usec : ℕ) → IsOpen (apply_all ops (0, new_ram_file mode usec))
unfolding new_ram_file
ops_keep_size ops mode usec =
    all-IsOpen ops (0, new_ram_file mode usec) (omega arith, (refl, omega arith))
