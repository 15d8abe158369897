-- ===== src/Directory/Creation.antt =====
-- What opening and creating do: src/fs/mem.rs, traverse_open and traverse_create_file.
use hermit_kernel.Base.{ℕ, ◌≡◌, refl, ap, ◌∙◌, false, ◌&&◌, Option, none, some, List, [], ◌∷◌}
use hermit_kernel.Base.Tests.{if◌then◌else◌}
use hermit_kernel.Base.Lists.{length}
use hermit_kernel.Errno.{Errno, noent, notdir}
use hermit_kernel.File.{Outcome, ok, err, FileAttr, RomFileInner, new_attr, new_rom_file}
use hermit_kernel.Directory.Paths.{Name, FilePath, join}
use hermit_kernel.Directory.{
  Node, Entries, Inodes, Object, ram_object, get_kind, is_file, get_file_attributes, get_object,
  lookup, insert, OpenOption, create_here, traverse_create_file, traverse_stat, with_rom,
}
use hermit_kernel.Directory.Unused.{IsUnused, own_rom, with_rom-Agree, traverse_stat-unused}
use hermit_kernel.Directory.Walk.{stat_at, AreNames}
use hermit_kernel.Directory.Frame.{extends, KeepsOthers}
use hermit_kernel.Directory.Parent.{last, parent}
use hermit_kernel.Directory.Changes.{changes_lem, insert-others, insert-own}

-- The outcome is an opened object, new tables and a new tree, in which the first path has the
-- status, and the second one the status that it had.
abbrev pub Opens :
    Inodes
    → Node
    → FilePath
    → FilePath
    → Outcome (Object × (Inodes × Node))
    → Object
    → Outcome FileAttr
    → Type 0
Opens inodes t path other out object status =
    (inodes' : Inodes) × (t' : Node) × (out ≡ ok (object, (inodes', t')))
    × (traverse_stat inodes' t' path ≡ status)
    × (traverse_stat inodes' t' other ≡ traverse_stat inodes t other)

-- What there is at the path decides, and the flags.
abbrev pub Opening :
    OpenOption
    → ℕ
    → ℕ
    → ℕ
    → Inodes
    → Node
    → FilePath
    → FilePath
    → Outcome (Object × (Inodes × Node))
    → Option Node
    → Type 0
Opening opt mode usec fresh inodes t path other out none =
    if opt.o_creat
    then Opens inodes t path other out (ram_object fresh) (ok (new_attr mode 0 usec))
    else out ≡ err noent
Opening opt mode usec fresh inodes t path other out (some node) =
    if opt.o_directory && is_file (get_kind node)
    then out ≡ err notdir
    else Opens inodes t path other out (get_object node) (ok (get_file_attributes inodes node))

create_here-KeepsOthers :
    (bytes : List ℕ) (mode usec fresh : ℕ) → KeepsOthers (create_here bytes mode usec fresh)
unfolding create_here
create_here-KeepsOthers bytes mode usec fresh es es' c d r e x =
    let same : es' ≡ insert c (Node.rom_file fresh) es = cc in
    ap (lookup d) same ∙ insert-others c d (Node.rom_file fresh) es x

-- Creating a read-only file replaces whatever was at the path: its attributes are the size of the
-- bytes, the mode and the current time, and the status of every path that does not go on from this
-- one is as before.
pub create_file_lem :
    (bytes : List ℕ) (mode usec fresh : ℕ) (inodes : Inodes) (t : Node) (c : Name) (cs : List Name)
    (d : Name) (ds : List Name) (es : Entries)
    → AreNames (c ∷ cs)
    → AreNames (d ∷ ds)
    → extends c cs d ds ≡ false
    → parent t c cs ≡ some es
    → IsUnused fresh t
    → (inodes' : Inodes) × (t' : Node) × (traverse_create_file bytes mode usec fresh inodes t
          (join c cs)
        ≡ ok (inodes', t'))
      × (traverse_stat inodes' t' (join c cs) ≡ ok (new_attr mode (length bytes) usec))
      × (traverse_stat inodes' t' (join d ds) ≡ traverse_stat inodes t (join d ds))
unfolding traverse_create_file create_here new_rom_file
create_file_lem bytes mode usec fresh inodes t c cs d ds es h k x p u =
    let file = new_rom_file bytes mode usec in
    let inodes' = with_rom inodes fresh file in
    let (t', f, s, o) =
      changes_lem noent (create_here bytes mode usec fresh)
        (create_here-KeepsOthers bytes mode usec fresh) inodes' t c cs d ds es _ file h k x p
        refl in
    (
      inodes',
      t',
      rw f refl,
      s
          ∙ ap (λ (o : Option Node). stat_at inodes' o [])
              (insert-own (last c cs) (Node.rom_file fresh) es)
          ∙ ap (λ (f : RomFileInner). ok f.attr) (own_rom inodes fresh file),
      o ∙ traverse_stat-unused fresh inodes inodes' (with_rom-Agree inodes fresh file) t d ds k u,
    )
