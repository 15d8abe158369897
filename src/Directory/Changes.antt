-- ===== src/Directory/Changes.antt =====
-- What the traversals that change the tree do: src/fs/mem.rs, traverse_unlink, traverse_rmdir,
-- traverse_open and traverse_create_file.
use hermit_kernel.Base.{◌≡◌, refl, false, none, some, List, [], ◌∷◌, arith}
use hermit_kernel.Errno.{Errno}
use hermit_kernel.File.{Outcome, ok, FileAttr}
use hermit_kernel.Directory.Paths.{Name, FilePath, same_text, same_text_iff, same_text_refl, join}
use hermit_kernel.Directory.{
  Node, Entries, end, entry, Inodes, lookup, insert, remove, traverse, traverse_stat,
}
use hermit_kernel.Directory.Lookup.{lookup-insert, lookup-remove, AreUnique}
use hermit_kernel.Directory.Walk.{stat_at, AreNames}
use hermit_kernel.Directory.Frame.{extends, KeepsOthers, kept}
use hermit_kernel.Directory.Parent.{last, parent, stat_parent, acts_lem}

-- The outcome is a result and a new tree, in which the first path has the status, and the second
-- one the status that it had.
abbrev pub Changes :
    {R : Type 0}
    → Inodes
    → Node
    → FilePath
    → FilePath
    → Outcome (R × Node)
    → R
    → Outcome FileAttr
    → Type 0
Changes inodes t path other out r status =
    (t' : Node) × (out ≡ ok (r, t'))
    × (traverse_stat inodes t' path ≡ status)
    × (traverse_stat inodes t' other ≡ traverse_stat inodes t other)

module _ {R : Type 0} (missing : Errno) (here : Entries → Name → Outcome (R × Entries))
    (local : KeepsOthers here) (inodes : Inodes) where
  pub changes_lem :
      (t : Node) (c : Name) (cs : List Name) (d : Name) (ds : List Name) (es es' : Entries) (r : R)
      → AreNames (c ∷ cs)
      → AreNames (d ∷ ds)
      → extends c cs d ds ≡ false
      → parent t c cs ≡ some es
      → here es (last c cs) ≡ ok (r, es')
      → Changes inodes t
          (join c cs)
          (join d ds)
          (traverse missing here t (join c cs))
          r
          (stat_at inodes (lookup (last c cs) es') [])
  changes_lem t c cs d ds es es' r h k x p a =
      let (t', f, p') = acts_lem missing here t c cs es es' r h p a in
      (
        t',
        f,
        stat_parent inodes t' c cs es' h p',
        kept missing here local inodes c cs d ds t t' r h k x f,
      )

pub insert-others :
    (c d : Name) (node : Node) (es : Entries)
    → same_text c d ≡ false
    → lookup d (insert c node es) ≡ lookup d es
insert-others c d node es x = rw (lookup-insert c d node es, x) refl

pub insert-own : (c : Name) (node : Node) (es : Entries) → lookup c (insert c node es) ≡ some node
insert-own c node es = rw (lookup-insert c c node es, same_text_refl c) refl

pub remove-others :
    (c d : Name) (es : Entries) → same_text c d ≡ false → lookup d (remove c es) ≡ lookup d es
unfolding lookup remove
remove-others c d end x = refl
remove-others c d (entry n node es) x =
    ground (arith, same_text_iff c d, same_text_iff n c, same_text_iff n d, remove-others c d es x)

pub remove-own : (c : Name) (es : Entries) → AreUnique es → lookup c (remove c es) ≡ none
remove-own c es u = rw (lookup-remove c c es u, same_text_refl c) refl
