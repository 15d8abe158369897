-- ===== src/File/Seek.antt =====
-- Where a seek goes, and what is read back after a write.
use hermit_kernel.Base.{
  ℕ, zero, suc, ◌+◌, ◌-◌, ◌≤◌, ◌≡◌, refl, ap, ◌∙◌, ◌⊎◌, inl, inr, min, true, false, Option, none,
  some, List, [], ◌∷◌, ◌++◌, arith,
}
use hermit_kernel.Base.Tests.{leb, if◌then◌else◌, Bool-cases, not-ltb}
use hermit_kernel.Base.Lists.{length, take, drop, length-take}
use hermit_kernel.Base.Int.{ℤ, pos, negsuc, ◌+ℤ◌}
use hermit_kernel.Errno.{Errno, inval, overflow}
use hermit_kernel.File.{
  Outcome, ok, err, panic, RamFileInner, RomFileInner, Timespec, SeekWhence, isize_max, in_isize,
  new_pos, ram_move, ram_seek, checked_add, ok_or_overflow, grow, written, write, lseek, read,
  rom_lseek, rom_seek, rom_read,
}
use hermit_kernel.File.Write.{IsFile, byte, length-grow, byte-grow, grow-IsFile, length-written}
use hermit_kernel.File.Read.{take-append, take_all, drop_all}
use mathlib.Core.List.{append-nil}

-- The position that a seek is counted from.
abbrev pub base : SeekWhence → ℕ → ℕ → Option ℕ
base SeekWhence.seek_set at len = some 0
base SeekWhence.seek_cur at len = some at
base SeekWhence.seek_end at len = some len
base SeekWhence.seek_data at len = none
base SeekWhence.seek_hole at len = none

-- What a seek to a position that is within `limit` returns.
abbrev pub verdict : ℤ → Outcome ℤ
verdict (negsuc n) = err inval
verdict (pos n) = if leb n isize_max then ok (pos n) else err overflow

abbrev pub sought : Option ℕ → ℤ → Outcome ℤ
sought none offset = err inval
sought (some b) offset = verdict (pos b +ℤ offset)

-- The position and the file after a seek with that result.
abbrev pub moves : Outcome ℤ → ℕ → RamFileInner → ℕ × RamFileInner
moves (ok (pos n)) at f = (n, grow n f)
moves _ at f = (at, f)

-- A sum that is no `isize` lies past the greatest one.
sum_overflows :
    (b : ℕ) (offset : ℤ)
    → b ≤ isize_max
    → in_isize offset ≡ true
    → in_isize (pos b +ℤ offset) ≡ false
    → verdict (pos b +ℤ offset) ≡ err overflow
unfolding ◌+ℤ◌
sum_overflows b (pos n) h k e = ground arith
sum_overflows b (negsuc n) h k e = ground arith

-- Where a seek goes, if anywhere.
abbrev Goes : Outcome ℤ → Outcome ℤ → Type 0
Goes goal out =
    ((z : ℤ) × (goal ≡ ok z) × (out ≡ verdict z) × (in_isize z ≡ true))
    ⊎ ((e : Errno) × (goal ≡ err e) × (out ≡ err e))

sum-Goes :
    (b : ℕ) (offset : ℤ)
    → b ≤ isize_max
    → in_isize offset ≡ true
    → Goes (ok_or_overflow (checked_add (pos b) offset)) (verdict (pos b +ℤ offset))
sum-Goes b offset h k = elim (Bool-cases (in_isize (pos b +ℤ offset))) [
  | inl e ↦ inl (pos b +ℤ offset, rw e, refl, e)
  | inr e ↦ inr (overflow, rw e, sum_overflows b offset h k e)
]

zero_add : (offset : ℤ) → pos 0 +ℤ offset ≡ offset
unfolding ◌+ℤ◌
zero_add (pos n) = ap pos (omega arith)
zero_add (negsuc n) = ground arith

new_pos-Goes :
    (offset : ℤ) (whence : SeekWhence) (at len : ℕ)
    → at ≤ isize_max
    → len ≤ isize_max
    → in_isize offset ≡ true
    → Goes (new_pos whence offset at len) (sought (base whence at len) offset)
unfolding new_pos
new_pos-Goes offset SeekWhence.seek_set at len h l k =
    inl (offset, refl, ap verdict (zero_add offset), k)
new_pos-Goes offset SeekWhence.seek_cur at len h l k = sum-Goes at offset h k
new_pos-Goes offset SeekWhence.seek_end at len h l k = sum-Goes len offset l k
new_pos-Goes offset SeekWhence.seek_data at len h l k = inr (inval, refl, refl)
new_pos-Goes offset SeekWhence.seek_hole at len h l k = inr (inval, refl, refl)

-- What a seek with the result `out` does.
abbrev pub Sought : Outcome ℤ → ℕ → RamFileInner → ℕ → Outcome ℤ × (ℕ × RamFileInner) → Type 0
Sought out at f j (r, (at', f')) =
    (r ≡ out) × ((at', f') ≡ moves r at f) × IsFile f' × (byte f' j ≡ byte f j)

move_lem :
    (z : ℤ) (at : ℕ) (f : RamFileInner) (j : ℕ)
    → IsFile f
    → in_isize z ≡ true
    → Sought (verdict z) at f j (ram_move z at f)
unfolding ram_move
move_lem (pos n) at f j v k =
    let h : n ≤ isize_max = ground arith in (rw k, refl, grow-IsFile n f v h, byte-grow n f j)
move_lem (negsuc n) at f j v k = (refl, refl, v, refl)

seek-Goes :
    (goal out : Outcome ℤ) (at : ℕ) (f : RamFileInner) (j : ℕ)
    → IsFile f
    → Goes goal out
    → Sought out at f j (ram_seek goal at f)
unfolding ram_seek
seek-Goes goal out at f j v (inl (z, e, o, k)) = rw (e, o) (move_lem z at f j v k)
seek-Goes goal out at f j v (inr (x, e, o)) = rw (e, o) (refl, refl, v, refl)

-- A seek to an offset within `isize` from the start, the position or the end goes to their sum. If
-- it is negative or any other kind of seek is asked for, the seek is refused as invalid, and if it
-- is no `isize`, as an overflow; position and file then stay. Past the end the file grows to the
-- new position, and no byte of it changes; its size stays right.
pub lseek_lem :
    (offset : ℤ) (whence : SeekWhence) (at : ℕ) (f : RamFileInner) (j : ℕ)
    → IsFile f
    → at ≤ isize_max
    → in_isize offset ≡ true
    → Sought (sought (base whence at (length f.content)) offset) at f j (lseek offset whence at f)
unfolding lseek
lseek_lem offset whence at f j v h k =
    seek-Goes (new_pos whence offset at (length f.content))
      (sought (base whence at (length f.content)) offset) at f j v
      (new_pos-Goes offset whence at (length f.content) h v.1 k)

drop-append : (n : ℕ) (xs ys : List ℕ) → length xs ≡ n → drop n (xs ++ ys) ≡ ys
drop-append zero [] ys h = refl
drop-append zero (x ∷ xs) ys h = absurd (omega arith)
drop-append (suc n) [] ys h = absurd (omega arith)
drop-append (suc n) (x ∷ xs) ys h = drop-append n xs ys (omega arith)

drop-written :
    (buf : List ℕ) (t : Timespec) (at : ℕ) (f : RamFileInner)
    → take (length buf) (drop at (written buf t at f).content) ≡ buf
drop-written buf t at f =
    let g = grow (at + length buf) f in
    let m = length-grow (at + length buf) f in
    let k : length (take at g.content) ≡ min at (length g.content) = length-take at g.content in
    let rest = drop (at + length buf) g.content in
    rw (drop-append at (take at g.content) (buf ++ rest) (omega arith))
      (take-append (length buf) buf rest (omega arith) ∙ take_all (length buf) buf (omega arith))

read_written :
    (buf into : List ℕ) (u : Timespec) (at : ℕ) (g : RamFileInner)
    → take (length buf) (drop at g.content) ≡ buf
    → at + length buf ≤ length g.content
    → length into ≡ length buf
    → let (n, (buf', (behind, g''))) = read into u at g in
      (n ≡ ok (length buf)) × (buf' ≡ buf) × (behind ≡ at + length buf)
unfolding read
read_written [] [] u at g e h same = elim (Bool-cases (leb (length g.content) at)) [
  | inl full ↦ rw full (refl, refl, omega arith)
  | inr room ↦
      let k : min (length g.content - at) 0 ≡ 0 = omega arith in rw (room, k) (refl, refl, refl)
]
read_written [] (x ∷ xs) u at g e h same = absurd (omega arith)
read_written (b ∷ bs) into u at g e h same =
    let k : min (length g.content - at) (length into) ≡ suc (length bs) = omega arith in
    let f : leb (length g.content) at ≡ false = ground arith in
    let none_left : drop (suc (length bs)) into ≡ [] =
      drop_all (suc (length bs)) into (omega arith) in
    rw (f, k, e, none_left) (refl, append-nil (b ∷ bs), refl)

-- A write from a position, read back from there into a buffer of the same length, is what was
-- written, and the position is again the one behind it.
pub read_back :
    (buf into : List ℕ) (t u : Timespec) (at : ℕ) (f : RamFileInner)
    → IsFile f
    → at + length buf ≤ isize_max
    → length into ≡ length buf
    → let (r, (here, g)) = write buf t at f in
      let (s, (there, g')) = lseek (pos at) SeekWhence.seek_set here g in
      let (n, (buf', (behind, g''))) = read into u there g' in
      (n ≡ ok (length buf)) × (buf' ≡ buf) × (behind ≡ here)
unfolding write lseek read
read_back buf into t u at f v h same =
    let g = written buf t at f in
    let n = length-written buf t at f in
    rw (not-ltb isize_max (at + length buf) h, not-ltb (length g.content) at (omega arith))
      (read_written buf into u at g (drop-written buf t at f) (omega arith) same)

rom_seek_within :
    (goal : Outcome ℤ) (at : ℕ) (f : RomFileInner)
    → at ≤ length f.content
    → (rom_seek goal at f).1 ≤ length f.content
unfolding rom_seek
rom_seek_within (ok (pos n)) at f h = ground arith
rom_seek_within (ok (negsuc n)) at f h = h
rom_seek_within (err e) at f h = h
rom_seek_within panic at f h = h

-- Neither a read nor a seek moves the position of a read-only file behind its end.
pub rom_within :
    (buf : List ℕ) (t : Timespec) (offset : ℤ) (whence : SeekWhence) (at : ℕ) (f : RomFileInner)
    → at ≤ length f.content
    → ((rom_read buf t at f).1.1.0 ≤ length f.content)
      × ((rom_lseek offset whence at f).1 ≤ length f.content)
unfolding rom_read rom_lseek
rom_within buf t offset whence at f h =
    (ground arith, rom_seek_within (new_pos whence offset at (length f.content)) at f h)
