-- ===== src/Directory/Tests.antt =====
-- Concrete runs of the directories.
use hermit_kernel.Base.{ℕ, ◌+◌, ◌≡◌, refl, true, false, none, some, [], ◌∷◌}
use hermit_kernel.Errno.{badf, notdir}
use hermit_kernel.File.{ok, err, FileAttr, Timespec}
use hermit_kernel.Directory.Paths.{Name, same_text, join}
use hermit_kernel.Directory.{
  Node, Entries, end, entry, Inodes, OpenOption, keys, lookup, traverse_unlink, traverse_rmdir,
  traverse_readdir,
}
use hermit_kernel.Directory.Lookup.{IsTree}
use hermit_kernel.Directory.Walk.{AreNames}
use hermit_kernel.Directory.Frame.{extends}
use hermit_kernel.Directory.Parent.{parent}
use hermit_kernel.Directory.Changes.{Changes}
use hermit_kernel.Directory.Removal.{remove_lem}
use hermit_kernel.Directory.Listing.{readdir_lem}

abbrev a_name : Name
a_name = b'a' ∷ []

abbrev t_name : Name
t_name = b't' ∷ []

abbrev x_name : Name
x_name = b'x' ∷ []

abbrev y_name : Name
y_name = b'y' ∷ []

abbrev start : Timespec
start = record { tv_sec = 0; tv_nsec = 0 }

abbrev mode_attr : ℕ → FileAttr
mode_attr mode = record {
  st_dev = 0;
  st_ino = 0;
  st_nlink = 0;
  st_mode = mode;
  st_uid = 0;
  st_gid = 0;
  st_rdev = 0;
  st_size = 0;
  st_blksize = 0;
  st_blocks = 0;
  st_atim = start;
  st_mtim = start;
  st_ctim = start;
}

abbrev inodes : Inodes
inodes = record {
  rams = λ i. record { content = []; attr = mode_attr (32768 + i) };
  roms = λ i. record { content = []; attr = mode_attr (33024 + i) };
}

abbrev inner : Entries
inner = entry x_name (Node.ram_file 1) end

-- A directory t with a file x.
abbrev folder : Node
folder = Node.directory 1 (mode_attr 16895) inner

abbrev top : Entries
top = entry a_name (Node.ram_file 0) (entry t_name folder end)

-- A file a and the directory t.
abbrev root : Node
root = Node.directory 0 (mode_attr 16895) top

abbrev fresh_dir : Node
fresh_dir = Node.directory 2 (mode_attr 16832) end

root-IsTree : IsTree root
unfolding lookup same_text
root-IsTree = (refl, tt, (refl, (refl, tt, tt), tt))

a-AreNames : AreNames (a_name ∷ [])
a-AreNames = ((refl, (refl, tt)), tt)

x-AreNames : AreNames (t_name ∷ x_name ∷ [])
x-AreNames = ((refl, (refl, tt)), ((refl, (refl, tt)), tt))

x-parent : parent root t_name (x_name ∷ []) ≡ some inner
unfolding parent lookup same_text
x-parent = refl

t-parent : parent root t_name [] ≡ some top
unfolding parent
t-parent = refl

x_kept : extends t_name (x_name ∷ []) a_name [] ≡ false
unfolding extends
x_kept = refl

x_found : lookup x_name inner ≡ some (Node.ram_file 1)
unfolding lookup same_text
x_found = refl

t_found : lookup t_name top ≡ some folder
unfolding lookup same_text
t_found = refl

nameless_missing : lookup [] inner ≡ none
unfolding lookup same_text
nameless_missing = refl

remove_lem_example :
    Changes inodes root
      (join t_name (x_name ∷ []))
      (join a_name [])
      (traverse_unlink root (join t_name (x_name ∷ [])))
      tt
      (err badf)
    × (traverse_rmdir root (join t_name (x_name ∷ [])) ≡ err notdir)
remove_lem_example =
    remove_lem inodes root t_name (x_name ∷ []) a_name [] inner (some (Node.ram_file 1)) root-IsTree
      x-AreNames a-AreNames x_kept x-parent x_found

abbrev creating : OpenOption
creating = record { o_creat = true; o_directory = false }

-- The names in the root, although the path is that of the directory t.
readdir_lem_example : traverse_readdir root (join t_name []) ≡ ok (keys top)
readdir_lem_example = readdir_lem root t_name [] top ((refl, (refl, tt)), tt) t-parent
