-- ===== src/File.antt =====
-- src/fs/mem.rs: the open files of the memory file system, and src/fs/mod.rs: their attributes.
-- A file's content and attributes are shared by the handles on it, of which each has a position:
-- an operation takes and returns both. Bytes are numbers; the time of an operation is an argument.
-- That memory runs out is not modelled.
pub mod Bytes
pub mod Write
pub mod Read
pub mod Seek
pub mod Sizes
mod Tests
use hermit_kernel.Base.{
  bit_or, ℕ, ◌+◌, ◌-◌, ◌*◌, ◌/◌, ◌%◌, ◌^◌, ◌≡◌, min, Bool, true, false, ◌&&◌, ◌||◌, not, Option,
  none, some, List, [], ◌∷◌, ◌++◌,
}
use hermit_kernel.Base.Tests.{ltb, leb, if◌then◌else◌}
use hermit_kernel.Base.Lists.{length, take, drop, replicate}
use hermit_kernel.Base.Int.{ℤ, pos, negsuc, ◌+ℤ◌}
use hermit_kernel.Errno.{Errno, inval, overflow}
use hermit_kernel.EventFd.{PollEvent}

-- `io::Result`, with a panic as a third outcome.
pub data Outcome {ℓ} (A : Type ℓ) : Type ℓ where
  ok : A → Outcome A
  err : Errno → Outcome A
  panic : Outcome A

pub record Timespec : Type 0 where
  pub tv_sec : ℕ
  pub tv_nsec : ℕ

abbrev pub from_usec : ℕ → Timespec
from_usec usec = record { tv_sec = usec / 1000000; tv_nsec = usec % 1000000 * 1000 }

pub record FileAttr : Type 0 where
  pub st_dev : ℕ
  pub st_ino : ℕ
  pub st_nlink : ℕ
  pub st_mode : ℕ
  pub st_uid : ℕ
  pub st_gid : ℕ
  pub st_rdev : ℕ
  pub st_size : ℕ
  pub st_blksize : ℕ
  pub st_blocks : ℕ
  pub st_atim : Timespec
  pub st_mtim : Timespec
  pub st_ctim : Timespec

pub data SeekWhence : Type 0 where
  seek_set seek_cur seek_end seek_data seek_hole : SeekWhence

-- `RamFileInner`, and `RomFileInner`, whose data no operation changes.
pub record RamFileInner : Type 0 where
  pub content : List ℕ
  pub attr : FileAttr

pub record RomFileInner : Type 0 where
  pub content : List ℕ
  pub attr : FileAttr

-- `AccessPermission::S_IFREG`
abbrev pub s_ifreg : ℕ
s_ifreg = 32768

abbrev pub isize_max : ℕ
isize_max = 2 ^ 63 - 1

-- `Vec::resize` with zeros.
abbrev pub resize : List ℕ → ℕ → List ℕ
resize xs n = take n xs ++ replicate (n - length xs) 0

-- `copy_from_slice` into the part of `xs` that begins at `i` and is as long as `ys`.
abbrev pub copy_into : List ℕ → ℕ → List ℕ → List ℕ
copy_into xs i ys = take i xs ++ (ys ++ drop (i + length ys) xs)

abbrev pub in_isize : ℤ → Bool
in_isize (pos n) = leb n isize_max
in_isize (negsuc n) = leb n isize_max

-- `isize::checked_add`
abbrev pub checked_add : ℤ → ℤ → Option ℤ
checked_add a b = if in_isize (a +ℤ b) then some (a +ℤ b) else none

abbrev pub ok_or_overflow : Option ℤ → Outcome ℤ
ok_or_overflow none = err overflow
ok_or_overflow (some n) = ok n

-- The position that a seek asks for.
pub new_pos : SeekWhence → ℤ → ℕ → ℕ → Outcome ℤ
new_pos SeekWhence.seek_set offset at data_len = ok offset
new_pos SeekWhence.seek_cur offset at data_len = ok_or_overflow (checked_add (pos at) offset)
new_pos SeekWhence.seek_end offset at data_len = ok_or_overflow (checked_add (pos data_len) offset)
new_pos SeekWhence.seek_data offset at data_len = err inval
new_pos SeekWhence.seek_hole offset at data_len = err inval

-- What is read from `xs` at `i` into `buf`, and how much it is.
abbrev pub slice_len : List ℕ → ℕ → List ℕ → ℕ
slice_len xs i buf = min (length xs - i) (length buf)

abbrev pub filled : List ℕ → ℕ → List ℕ → List ℕ
filled xs i buf = take (slice_len xs i buf) (drop i xs) ++ drop (slice_len xs i buf) buf

-- A result is the number of bytes, the buffer, the position and the file.
pub rom_read : List ℕ → Timespec → ℕ → RomFileInner → Outcome ℕ × (List ℕ × (ℕ × RomFileInner))
rom_read buf t at f =
    let touched : RomFileInner = record f { attr = record (f.attr) { st_atim = t } } in
    if leb (length f.content) at then (ok 0, (buf, (at, touched))) else (
      ok (slice_len f.content at buf),
      (filled f.content at buf, (at + slice_len f.content at buf, touched)),
    )

-- A seek to `n`, within the file only.
rom_move : ℤ → ℕ → RomFileInner → Outcome ℤ × ℕ
rom_move (negsuc n) at f = (err inval, at)
rom_move (pos n) at f = if leb n (length f.content) then (ok (pos n), n) else (err inval, at)

rom_seek : Outcome ℤ → ℕ → RomFileInner → Outcome ℤ × ℕ
unfolding rom_move
rom_seek (ok n) at f = rom_move n at f
rom_seek (err e) at f = (err e, at)
rom_seek panic at f = (panic, at)

pub rom_lseek : ℤ → SeekWhence → ℕ → RomFileInner → Outcome ℤ × ℕ
unfolding new_pos rom_seek
rom_lseek offset whence at f = rom_seek (new_pos whence offset at (length f.content)) at f

pub read : List ℕ → Timespec → ℕ → RamFileInner → Outcome ℕ × (List ℕ × (ℕ × RamFileInner))
read buf t at f =
    let touched : RamFileInner = record f { attr = record (f.attr) { st_atim = t } } in
    if leb (length f.content) at then (ok 0, (buf, (at, touched))) else (
      ok (slice_len f.content at buf),
      (filled f.content at buf, (at + slice_len f.content at buf, touched)),
    )

-- The file grown to `n` bytes, if it is shorter.
abbrev pub grow : ℕ → RamFileInner → RamFileInner
grow n f =
    if ltb (length f.content) n
    then record { content = resize f.content n; attr = record (f.attr) { st_size = n } }
    else f

abbrev pub written : List ℕ → Timespec → ℕ → RamFileInner → RamFileInner
written buf t at f =
    let g = grow (at + length buf) f in
    record {
      content = copy_into g.content at buf;
      attr = record (g.attr) { st_atim = t; st_mtim = t; st_ctim = t };
    }

-- A vector of more than `isize::MAX` bytes is a panic.
pub write : List ℕ → Timespec → ℕ → RamFileInner → Outcome ℕ × (ℕ × RamFileInner)
write buf t at f =
    if ltb isize_max (at + length buf)
    then (panic, (at, f))
    else (ok (length buf), (at + length buf, written buf t at f))

-- A seek to `n`, past the end too.
ram_move : ℤ → ℕ → RamFileInner → Outcome ℤ × (ℕ × RamFileInner)
ram_move (negsuc n) at f = (err inval, (at, f))
ram_move (pos n) at f = (ok (pos n), (n, grow n f))

ram_seek : Outcome ℤ → ℕ → RamFileInner → Outcome ℤ × (ℕ × RamFileInner)
unfolding ram_move
ram_seek (ok n) at f = ram_move n at f
ram_seek (err e) at f = (err e, (at, f))
ram_seek panic at f = (panic, (at, f))

pub lseek : ℤ → SeekWhence → ℕ → RamFileInner → Outcome ℤ × (ℕ × RamFileInner)
unfolding new_pos ram_seek
lseek offset whence at f = ram_seek (new_pos whence offset at (length f.content)) at f

pub truncate : ℕ → RamFileInner → Outcome (Unit {0}) × RamFileInner
truncate size f = if ltb isize_max size then (panic, f) else (
  ok tt,
  record { content = resize f.content size; attr = record (f.attr) { st_size = size } },
)

abbrev pub new_attr : ℕ → ℕ → ℕ → FileAttr
new_attr mode size usec =
    let t = from_usec usec in
    record {
      st_dev = 0;
      st_ino = 0;
      st_nlink = 0;
      st_mode = bit_or mode s_ifreg;
      st_uid = 0;
      st_gid = 0;
      st_rdev = 0;
      st_size = size;
      st_blksize = 0;
      st_blocks = 0;
      st_atim = t;
      st_mtim = t;
      st_ctim = t;
    }

unfoldable pub new_rom_file : List ℕ → ℕ → ℕ → RomFileInner
new_rom_file data_bytes mode usec = record {
  content = data_bytes;
  attr = new_attr mode (length data_bytes) usec;
}

unfoldable pub new_ram_file : ℕ → ℕ → RamFileInner
new_ram_file mode usec = record { content = []; attr = new_attr mode 0 usec }

pub chmod : ℕ → RamFileInner → RamFileInner
chmod access_permission f = record f { attr = record (f.attr) { st_mode = access_permission } }

abbrev pub intersection : Bool → Bool → PollEvent → PollEvent
intersection readable writable event = record {
  pollin = event.pollin && readable;
  pollrdnorm = event.pollrdnorm && readable;
  pollrdband = event.pollrdband && readable;
  pollout = event.pollout && writable;
  pollwrnorm = event.pollwrnorm && writable;
  pollwrband = event.pollwrband && writable;
}

pub rom_poll : PollEvent → ℕ → RomFileInner → PollEvent
rom_poll event at f = intersection (ltb at (length f.content)) false event

pub poll : PollEvent → ℕ → RamFileInner → PollEvent
poll event at f = intersection (ltb at (length f.content)) true event
