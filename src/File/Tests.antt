-- ===== src/File/Tests.antt =====
-- Files in memory at concrete inputs.
use hermit_kernel.Base.{ℕ, ◌≡◌, refl, List, [], ◌∷◌, arith}
use hermit_kernel.Base.Int.{negsuc, ◌+ℤ◌}
use hermit_kernel.Errno.{inval}
use hermit_kernel.File.{
  err, RamFileInner, RomFileInner, FileAttr, Timespec, SeekWhence, write, lseek, new_ram_file,
}
use hermit_kernel.File.Write.{Writes, IsFile, write_lem}
use hermit_kernel.File.Sizes.{FileOp, writes, truncates, seeks, apply_all, IsOpen, ops_keep_size}

abbrev epoch : Timespec
epoch = record { tv_sec = 0; tv_nsec = 0 }

-- The attributes of a file of three bytes.
abbrev attr : FileAttr
attr = record {
  st_dev = 0;
  st_ino = 0;
  st_nlink = 0;
  st_mode = 420;
  st_uid = 0;
  st_gid = 0;
  st_rdev = 0;
  st_size = 3;
  st_blksize = 0;
  st_blocks = 0;
  st_atim = epoch;
  st_mtim = epoch;
  st_ctim = epoch;
}

abbrev file : RamFileInner
file = record { content = 1 ∷ 2 ∷ 3 ∷ []; attr = attr }

abbrev rom_file : RomFileInner
rom_file = record { content = 1 ∷ 2 ∷ 3 ∷ []; attr = attr }

file-IsFile : IsFile file
file-IsFile = (refl, omega arith)

abbrev word : List ℕ
word = 8 ∷ 9 ∷ []

-- A write two bytes past the end.
write_lem_example : Writes word 5 file (write word epoch 5 file)
write_lem_example = write_lem word epoch 5 file file-IsFile (omega arith)

seek_refused : (lseek (negsuc 3) SeekWhence.seek_end 5 file).0 ≡ err inval
unfolding lseek ◌+ℤ◌
seek_refused = refl

abbrev buffers : List (List ℕ)
buffers = (0 ∷ []) ∷ (0 ∷ 0 ∷ 0 ∷ []) ∷ []

abbrev session : List FileOp
session = writes word epoch ∷ truncates 9 ∷ seeks (negsuc 1) refl SeekWhence.seek_end ∷ []

ops_keep_size_example : IsOpen (apply_all session (0, new_ram_file 420 5000000))
ops_keep_size_example = ops_keep_size session 420 5000000
