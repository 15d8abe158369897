-- ===== src/Directory/Removal.antt =====
-- What unlink and rmdir do: src/fs/mem.rs, traverse_unlink and traverse_rmdir.
use hermit_kernel.Base.{◌≡◌, refl, ap, ◌∙◌, Bool, true, false, not, Option, none, some, List, ◌∷◌}
use hermit_kernel.Base.Tests.{if◌then◌else◌}
use hermit_kernel.Errno.{Errno, badf, noent, notdir, isdir}
use hermit_kernel.File.{Outcome, ok, err}
use hermit_kernel.Directory.Paths.{Name, FilePath, join}
use hermit_kernel.Directory.{
  Node, Entries, Inodes, get_kind, is_file, lookup, remove, traverse, remove_kind, remove_found,
  unlink_here, rmdir_here, traverse_unlink, traverse_rmdir,
}
use hermit_kernel.Directory.Lookup.{IsTree}
use hermit_kernel.Directory.Walk.{AreNames}
use hermit_kernel.Directory.Frame.{extends, KeepsOthers}
use hermit_kernel.Directory.Parent.{last, parent, fails_lem, parent-AreUnique}
use hermit_kernel.Directory.Changes.{Changes, changes_lem, remove-others, remove-own}

found-entries :
    (files : Bool) (other : Errno) (es es' : Entries) (c : Name) (r : Unit {0}) (o : Option Node)
    → remove_found files other es c o ≡ ok (r, es')
    → es' ≡ remove c es
found-entries files other es es' c r none h = absurd cc
found-entries true other es es' c r (some (Node.directory i attr es₂)) h = absurd cc
found-entries true other es es' c r (some (Node.ram_file i)) h = cc
found-entries true other es es' c r (some (Node.rom_file i)) h = cc
found-entries false other es es' c r (some (Node.directory i attr es₂)) h = cc
found-entries false other es es' c r (some (Node.ram_file i)) h = absurd cc
found-entries false other es es' c r (some (Node.rom_file i)) h = absurd cc

remove_kind-KeepsOthers : (files : Bool) (other : Errno) → KeepsOthers (remove_kind files other)
remove_kind-KeepsOthers files other es es' c d r e x =
    ap (lookup d) (found-entries files other es es' c r (lookup c es) e) ∙ remove-others c d es x

abbrev pub same_kind : Bool → Node → Bool
same_kind true node = is_file (get_kind node)
same_kind false node = not (is_file (get_kind node))

-- What there is at the path decides.
abbrev pub Removal :
    Bool
    → Errno
    → Inodes
    → Node
    → FilePath
    → FilePath
    → Outcome (Unit {0} × Node)
    → Option Node
    → Type 0
Removal files other inodes t path others out none = out ≡ err noent
Removal files other inodes t path others out (some node) =
    if same_kind files node then Changes inodes t path others out tt (err badf) else out ≡ err other

module _ (files : Bool) (other : Errno) (inodes : Inodes) (t : Node) (c : Name) (cs : List Name)
    (d : Name) (ds : List Name) (es : Entries) (u : IsTree t) (h : AreNames (c ∷ cs))
    (k : AreNames (d ∷ ds)) (x : extends c cs d ds ≡ false) (p : parent t c cs ≡ some es) where
  removed :
      remove_kind files other es (last c cs) ≡ ok (tt, remove (last c cs) es)
      → Changes inodes t
          (join c cs)
          (join d ds)
          (traverse badf (remove_kind files other) t (join c cs))
          tt
          (err badf)
  removed a =
      let (t', f, s, o) =
        changes_lem badf (remove_kind files other) (remove_kind-KeepsOthers files other) inodes t c
          cs d ds es (remove (last c cs) es) tt h k x p a in
      let gone = remove-own (last c cs) es (parent-AreUnique t c cs es u p) in
      (t', f, s ∙ rw gone refl, o)

  refused :
      (e : Errno)
      → remove_kind files other es (last c cs) ≡ err e
      → traverse badf (remove_kind files other) t (join c cs) ≡ err e
  refused e a = fails_lem badf (remove_kind files other) t c cs es e h p a

removal_lem :
    (files : Bool) (other : Errno) (inodes : Inodes) (t : Node) (c : Name) (cs : List Name)
    (d : Name) (ds : List Name) (es : Entries) (o : Option Node)
    → IsTree t
    → AreNames (c ∷ cs)
    → AreNames (d ∷ ds)
    → extends c cs d ds ≡ false
    → parent t c cs ≡ some es
    → lookup (last c cs) es ≡ o
    → Removal files other inodes t
        (join c cs)
        (join d ds)
        (traverse badf (remove_kind files other) t (join c cs))
        o
removal_lem files other inodes t c cs d ds es none u h k x p l =
    refused files other inodes t c cs d ds es u h k x p noent (rw l refl)
removal_lem true other inodes t c cs d ds es (some (Node.directory i attr es₂)) u h k x p l =
    refused true other inodes t c cs d ds es u h k x p other (rw l refl)
removal_lem true other inodes t c cs d ds es (some (Node.ram_file i)) u h k x p l =
    removed true other inodes t c cs d ds es u h k x p (rw l refl)
removal_lem true other inodes t c cs d ds es (some (Node.rom_file i)) u h k x p l =
    removed true other inodes t c cs d ds es u h k x p (rw l refl)
removal_lem false other inodes t c cs d ds es (some (Node.directory i attr es₂)) u h k x p l =
    removed false other inodes t c cs d ds es u h k x p (rw l refl)
removal_lem false other inodes t c cs d ds es (some (Node.ram_file i)) u h k x p l =
    refused false other inodes t c cs d ds es u h k x p other (rw l refl)
removal_lem false other inodes t c cs d ds es (some (Node.rom_file i)) u h k x p l =
    refused false other inodes t c cs d ds es u h k x p other (rw l refl)

-- Unlinking the path of an entry of a directory, and removing the directory there. The one that is
-- for the kind of the entry removes it, with all that is in it, also if it is not empty, and the
-- status of every path that does not go on from this one is as before; the other one is refused,
-- with EISDIR or ENOTDIR. Both return ENOENT for a missing entry.
pub remove_lem :
    (inodes : Inodes) (t : Node) (c : Name) (cs : List Name) (d : Name) (ds : List Name)
    (es : Entries) (o : Option Node)
    → IsTree t
    → AreNames (c ∷ cs)
    → AreNames (d ∷ ds)
    → extends c cs d ds ≡ false
    → parent t c cs ≡ some es
    → lookup (last c cs) es ≡ o
    → Removal true isdir inodes t (join c cs) (join d ds) (traverse_unlink t (join c cs)) o
      × Removal false notdir inodes t (join c cs) (join d ds) (traverse_rmdir t (join c cs)) o
unfolding traverse_unlink unlink_here traverse_rmdir rmdir_here
remove_lem inodes t c cs d ds es o u h k x p l = (
  removal_lem true isdir inodes t c cs d ds es o u h k x p l,
  removal_lem false notdir inodes t c cs d ds es o u h k x p l,
)
