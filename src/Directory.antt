-- ===== src/Directory.antt =====
-- src/fs/mem.rs: the directories of the memory file system. A file is a number, under which its inner part is shared by its node and the handles
-- on it; likewise the entries of a directory, for handles on it. The entries are in the order of
-- their names. Nodes of other file systems and of devices are not modelled.
pub mod Paths
pub mod Lookup
pub mod Walk
pub mod Steps
pub mod Frame
pub mod Parent
pub mod Changes
pub mod Removal
pub mod Unused
pub mod Creation
pub mod Listing
mod Tests
use hermit_kernel.Base.{ℕ, Bool, true, false, ◌&&◌, not, Option, none, some, List, [], ◌∷◌}
use hermit_kernel.Base.Tests.{◌==◌, if◌then◌else◌}
use hermit_kernel.Errno.{Errno, badf, noent, nosys, notdir, isdir}
use hermit_kernel.File.{
  Outcome, ok, err, panic, FileAttr, RamFileInner, RomFileInner, new_ram_file, new_rom_file,
}
use Paths.{Name, FilePath, same_text, text_lt, is_empty, split_once, split}

mutual
  pub data Node : Type 0 where
    ram_file : ℕ → Node
    rom_file : ℕ → Node
    directory : ℕ → FileAttr → Entries → Node

  -- A `BTreeMap` from names to nodes.
  pub data Entries : Type 0 where
    end : Entries
    entry : Name → Node → Entries → Entries

pub data NodeKind : Type 0 where
  file : NodeKind
  directory : NodeKind

abbrev pub get_kind : Node → NodeKind
get_kind (ram_file i) = NodeKind.file
get_kind (rom_file i) = NodeKind.file
get_kind (Node.directory i attr es) = NodeKind.directory

abbrev pub is_file : NodeKind → Bool
is_file NodeKind.file = true
is_file NodeKind.directory = false

-- The inner parts of the files.
pub record Inodes : Type 0 where
  pub rams : ℕ → RamFileInner
  pub roms : ℕ → RomFileInner

abbrev pub get_file_attributes : Inodes → Node → FileAttr
get_file_attributes inodes (ram_file i) = (inodes.rams i).attr
get_file_attributes inodes (rom_file i) = (inodes.roms i).attr
get_file_attributes inodes (Node.directory i attr es) = attr

-- What `get_object` opens: the part that the handle shares.
pub data Object : Type 0 where
  ram_object rom_object directory_object : ℕ → Object

abbrev pub get_object : Node → Object
get_object (ram_file i) = ram_object i
get_object (rom_file i) = rom_object i
get_object (Node.directory i attr es) = directory_object i

-- `BTreeMap::get`
pub lookup : Name → Entries → Option Node
lookup c end = none
lookup c (entry n node es) = if same_text n c then some node else lookup c es

-- `BTreeMap::insert`
pub insert : Name → Node → Entries → Entries
insert c new end = entry c new end
insert c new (entry n node es) =
    let rest = insert c new es in
    if same_text n c
    then entry n new es
    else if text_lt c n
    then entry c new (entry n node es)
    else entry n node rest

-- `BTreeMap::remove`, for a name that is there.
pub remove : Name → Entries → Entries
remove c end = end
remove c (entry n node es) =
    let rest = remove c es in if same_text n c then es else entry n node rest

pub keys : Entries → List Name
keys end = []
keys (entry n node es) = n ∷ keys es

abbrev pub map_outcome : {A B : Type 0} → (A → B) → Outcome A → Outcome B
map_outcome f (ok a) = ok (f a)
map_outcome f (err e) = err e
map_outcome f panic = panic

-- A node in the place of the one that a traversal went into.
abbrev pub within : Name → Entries → Node → Entries
within n es node = entry n node es

abbrev pub past : Name → Node → Entries → Entries
past n node es = entry n node es

-- `traverse_stat` and `traverse_lstat`, which agree.
mutual
  pub traverse_stat : Inodes → Node → FilePath → Outcome FileAttr
  traverse_stat inodes (ram_file i) path =
      if is_empty path then ok (inodes.rams i).attr else err badf
  traverse_stat inodes (rom_file i) path =
      if is_empty path then ok (inodes.roms i).attr else err badf
  traverse_stat inodes (Node.directory i attr es) path =
      stat_entry inodes es (split path).0 (split path).1

  pub stat_entry : Inodes → Entries → Name → FilePath → Outcome FileAttr
  stat_entry inodes end c rest = err badf
  stat_entry inodes (entry n node es) c rest =
      let inside = traverse_stat inodes node rest in
      let others = stat_entry inodes es c rest in
      if same_text n c
      then if not (is_empty rest)
        then if is_file (get_kind node) then err notdir else inside
        else ok (get_file_attributes inodes node)
      else others

abbrev pub has_slash : Option (Name × FilePath) → Bool
has_slash none = false
has_slash (some parts) = true

mutual
  pub traverse_readdir : Node → FilePath → Outcome (List Name)
  traverse_readdir (ram_file i) path = err nosys
  traverse_readdir (rom_file i) path = err nosys
  traverse_readdir (Node.directory i attr es) path =
      if has_slash (split_once path)
      then readdir_entry es (split path).0 (split path).1
      else ok (keys es)

  pub readdir_entry : Entries → Name → FilePath → Outcome (List Name)
  readdir_entry end c rest = err badf
  readdir_entry (entry n node es) c rest =
      let inside = traverse_readdir node rest in
      let others = readdir_entry es c rest in if same_text n c then inside else others

-- The directory after its entry was asked, if there is one, which made the node below itself.
abbrev pub new_result :
    ℕ → FileAttr → Entries → Name → FilePath → Node → Option (Outcome Entries) → Outcome Node
new_result i attr es c rest new (some out) = map_outcome (Node.directory i attr) out
new_result i attr es c rest new none =
    if not (is_empty rest) then err badf else ok (Node.directory i attr (insert c new es))

-- `traverse_mkdir` and `traverse_mount`, which differ in the node that they insert.
mutual
  pub traverse_new : Node → FilePath → Node → Outcome Node
  traverse_new (ram_file i) path new = err nosys
  traverse_new (rom_file i) path new = err nosys
  traverse_new (Node.directory i attr es) path new =
      new_result i attr es (split path).0 (split path).1 new
        (new_entry es (split path).0 (split path).1 new)

  -- `none` if there is no entry with the name.
  pub new_entry : Entries → Name → FilePath → Node → Option (Outcome Entries)
  new_entry end c rest new = none
  new_entry (entry n node es) c rest new =
      let inside = map_outcome (within n es) (traverse_new node rest new) in
      let others = new_entry es c rest new in
      if same_text n c
      then some inside
      else elim others [ none ↦ none | some out ↦ some (map_outcome (past n node) out) ]

-- The traversals that go through the directories of a path to the one that holds its last
-- component, and act there: `missing` is the error if one of them is not there, and `here` acts on
-- the entries and the last component.
module _ {R : Type 0} (missing : Errno) (here : Entries → Name → Outcome (R × Entries)) where
  mutual
    pub traverse : Node → FilePath → Outcome (R × Node)
    traverse (ram_file i) path = err nosys
    traverse (rom_file i) path = err nosys
    traverse (Node.directory i attr es) path =
        map_outcome (λ p. (p.0, Node.directory i attr p.1))
          (if not (is_empty (split path).1)
            then traverse_entry es (split path).0 (split path).1
            else here es (split path).0)

    pub traverse_entry : Entries → Name → FilePath → Outcome (R × Entries)
    traverse_entry end c rest = err missing
    traverse_entry (entry n node es) c rest =
        let inside = map_outcome (λ p. (p.0, within n es p.1)) (traverse node rest) in
        let others = map_outcome (λ p. (p.0, past n node p.1)) (traverse_entry es c rest) in
        if same_text n c then inside else others

-- The flags of `OpenOption` that a traversal reads.
pub record OpenOption : Type 0 where
  pub o_creat : Bool
  pub o_directory : Bool

-- The entry to be removed: a node of another kind is put back, which leaves the entries as they
-- were.
abbrev pub remove_found : Bool → Errno → Entries → Name → Option Node → Outcome (Unit {0} × Entries)
remove_found files other es c none = err noent
remove_found files other es c (some node) =
    if is_file (get_kind node)
    then if files then ok (tt, remove c es) else err other
    else if files
    then err other
    else ok (tt, remove c es)

abbrev pub remove_kind : Bool → Errno → Entries → Name → Outcome (Unit {0} × Entries)
remove_kind files other es c = remove_found files other es c (lookup c es)

pub unlink_here : Entries → Name → Outcome (Unit {0} × Entries)
unlink_here = remove_kind true isdir

pub rmdir_here : Entries → Name → Outcome (Unit {0} × Entries)
rmdir_here = remove_kind false notdir

-- The result is the file that was created, whose number is `fresh`, and what is opened. `usec` is the
-- current time.
abbrev pub open_found :
    OpenOption
    → ℕ
    → ℕ
    → ℕ
    → Entries
    → Name
    → Option Node
    → Outcome ((Option RamFileInner × Object) × Entries)
open_found opt mode usec fresh es c none =
    if opt.o_creat
    then ok ((some (new_ram_file mode usec), ram_object fresh), insert c (ram_file fresh) es)
    else err noent
open_found opt mode usec fresh es c (some node) =
    if opt.o_directory && is_file (get_kind node)
    then err notdir
    else ok ((none, get_object node), es)

pub open_here :
    OpenOption → ℕ → ℕ → ℕ → Entries → Name → Outcome ((Option RamFileInner × Object) × Entries)
open_here opt mode usec fresh es c = open_found opt mode usec fresh es c (lookup c es)

pub create_here : List ℕ → ℕ → ℕ → ℕ → Entries → Name → Outcome (RomFileInner × Entries)
create_here bytes mode usec fresh es c =
    ok (new_rom_file bytes mode usec, insert c (rom_file fresh) es)

-- The inner parts of the files with a new one.
abbrev pub with_ram : Inodes → ℕ → Option RamFileInner → Inodes
with_ram inodes fresh none = inodes
with_ram inodes fresh (some f) = record inodes {
  rams = λ i. if i == fresh then f else inodes.rams i;
}

abbrev pub with_rom : Inodes → ℕ → RomFileInner → Inodes
with_rom inodes fresh f = record inodes { roms = λ i. if i == fresh then f else inodes.roms i }

pub traverse_unlink : Node → FilePath → Outcome (Unit {0} × Node)
unfolding unlink_here
traverse_unlink = traverse badf unlink_here

pub traverse_rmdir : Node → FilePath → Outcome (Unit {0} × Node)
unfolding rmdir_here
traverse_rmdir = traverse badf rmdir_here

-- A new file gets the number `fresh`.
pub traverse_open :
    OpenOption → ℕ → ℕ → ℕ → Inodes → Node → FilePath → Outcome (Object × (Inodes × Node))
unfolding open_here
traverse_open opt mode usec fresh inodes t path =
    map_outcome (λ p. (p.0.1, (with_ram inodes fresh p.0.0, p.1)))
      (traverse noent (open_here opt mode usec fresh) t path)

pub traverse_create_file : List ℕ → ℕ → ℕ → ℕ → Inodes → Node → FilePath → Outcome (Inodes × Node)
unfolding create_here
traverse_create_file bytes mode usec fresh inodes t path =
    map_outcome (λ p. (with_rom inodes fresh p.0, p.1))
      (traverse noent (create_here bytes mode usec fresh) t path)
