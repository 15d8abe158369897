-- ===== src/File/Write.antt =====
-- What a write, a seek and a truncation make of a file in memory.
use hermit_kernel.Base.{ℕ, ◌+◌, ◌-◌, ◌≤◌, ◌≡◌, refl, ◌∙◌, inl, inr, max, List, arith}
use hermit_kernel.Base.Tests.{ltb, leb, if◌then◌else◌, Bool-cases, not-ltb}
use hermit_kernel.Base.Lists.{length, get_or, get_or_out}
use hermit_kernel.File.{Outcome, ok, RamFileInner, Timespec, isize_max, grow, written, write}
use hermit_kernel.File.Bytes.{length-resize, get_or-resize, length-copy_into, get_or-copy_into}

-- The size in the attributes is the number of bytes.
abbrev pub IsFile : RamFileInner → Type 0
IsFile f = (f.attr.st_size ≡ length f.content) × (length f.content ≤ isize_max)

-- The byte at `j`; past the end it is 0.
abbrev pub byte : RamFileInner → ℕ → ℕ
byte f j = get_or f.content j 0

pub length-grow : (n : ℕ) (f : RamFileInner) → length (grow n f).content ≡ max (length f.content) n
length-grow n f = elim (Bool-cases (ltb (length f.content) n)) [
  | inl e ↦ rw (e, length-resize f.content n) (ground arith)
  | inr e ↦ rw e (ground arith)
]

pub byte-grow : (n : ℕ) (f : RamFileInner) (j : ℕ) → byte (grow n f) j ≡ byte f j
byte-grow n f j = elim (Bool-cases (ltb (length f.content) n)) [
  | inl e ↦ let out = get_or_out f.content j 0 in rw (e, get_or-resize f.content n j) (ground arith)
  | inr e ↦ rw e
]

pub grow-IsFile : (n : ℕ) (f : RamFileInner) → IsFile f → n ≤ isize_max → IsFile (grow n f)
grow-IsFile n f v h = elim (Bool-cases (ltb (length f.content) n)) [
  | inl e ↦ rw (e, length-resize f.content n) (refl, h)
  | inr e ↦ rw e v
]

pub length-written :
    (buf : List ℕ) (t : Timespec) (at : ℕ) (f : RamFileInner)
    → length (written buf t at f).content ≡ max (length f.content) (at + length buf)
length-written buf t at f =
    let g = length-grow (at + length buf) f in
    length-copy_into (grow (at + length buf) f).content at buf (omega arith) ∙ g

-- What a write of `buf` at `at` does to a file.
pub record Writes (buf : List ℕ) (at : ℕ) (f : RamFileInner) (out : Outcome ℕ × (ℕ × RamFileInner))
    : Type 0 where
  pub file : RamFileInner
  pub returns : out ≡ (ok (length buf), (at + length buf, file))
  pub is_file : IsFile file
  pub size : length file.content ≡ max (length f.content) (at + length buf)
  pub bytes :
      (j : ℕ)
      → byte file j ≡ (
          if leb at j
          then if ltb j (at + length buf) then get_or buf (j - at) 0 else byte f j
          else byte f j)

-- A write that ends within `isize::MAX` bytes writes all of its buffer at the position of the handle
-- and moves the position behind it. Every other byte is as before, where those between the old end
-- and the position are 0, the file grows only if the write ends past its end, and the size in the
-- attributes is right.
pub write_lem :
    (buf : List ℕ) (t : Timespec) (at : ℕ) (f : RamFileInner)
    → IsFile f
    → at + length buf ≤ isize_max
    → Writes buf at f (write buf t at f)
unfolding write
write_lem buf t at f v h = record {
  file = written buf t at f;
  returns = rw (not-ltb isize_max (at + length buf) h);
  is_file =
      let g = grow-IsFile (at + length buf) f v h in
      let n = length-written buf t at f in
      let m = length-grow (at + length buf) f in (omega arith, omega arith);
  size = length-written buf t at f;
  bytes = λ j.
      let m = length-grow (at + length buf) f in
      rw (
        get_or-copy_into (grow (at + length buf) f).content at buf j (omega arith),
        byte-grow (at + length buf) f j,
      );
}
