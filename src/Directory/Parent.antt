-- ===== src/Directory/Parent.antt =====
-- The directory that holds the last component of a path, and what an action there does.
use mathlib.Core.Path.{subst}
use hermit_kernel.Base.{
  ℕ, ◌≡◌, refl, ap, sym, ◌∙◌, inl, inr, true, false, Option, none, some, List, [], ◌∷◌,
}
use hermit_kernel.Base.Tests.{Bool-cases}
use hermit_kernel.Errno.{Errno}
use hermit_kernel.File.{Outcome, ok, err, FileAttr}
use hermit_kernel.Directory.Paths.{Name, same_text, same_text_refl, join, join_nonempty}
use hermit_kernel.Directory.{
  Node, Entries, Inodes, get_kind, is_file, lookup, traverse, traverse_stat,
}
use hermit_kernel.Directory.Lookup.{replace, lookup-replace, IsTree, AreUnique}
use hermit_kernel.Directory.Walk.{stat_at, AreNames}
use hermit_kernel.Directory.Steps.{traverse_last, traverse_more}
use hermit_kernel.Directory.Frame.{stat_component}

abbrev pub last : Name → List Name → Name
last c [] = c
last c (c' ∷ cs) = last c' cs

-- The entries of the directory that holds the last component, if there is one.
unfoldable pub parent : Node → Name → List Name → Option Entries
parent (Node.ram_file i) c cs = none
parent (Node.rom_file i) c cs = none
parent (Node.directory i attr es) c [] = some es
parent (Node.directory i attr es) c (c' ∷ cs) = elim (lookup c es) [
  | none ↦ none
  | some node ↦ parent node c' cs
]

-- The next node on the way to the last component.
pub parent_step :
    (i : ℕ) (attr : FileAttr) (es found : Entries) (c c' : Name) (cs : List Name)
    → parent (Node.directory i attr es) c (c' ∷ cs) ≡ some found
    → (node : Node) × (lookup c es ≡ some node) × (parent node c' cs ≡ some found)
unfolding parent
parent_step i attr es found c c' cs e = go (lookup c es) refl e
  where
    go :
        (o : Option Node)
        → lookup c es ≡ o
        → (elim o [ none ↦ none | some node ↦ parent node c' cs ]) ≡ some found
        → (node : Node) × (lookup c es ≡ some node) × (parent node c' cs ≡ some found)
    go none l h = absurd cc
    go (some node) l h = (node, l, h)

-- A node on the way is a directory.
pub parent-directory :
    (t : Node) (c : Name) (cs : List Name) (es : Entries)
    → parent t c cs ≡ some es
    → is_file (get_kind t) ≡ false
unfolding parent
parent-directory (Node.ram_file i) c cs es e = absurd cc
parent-directory (Node.rom_file i) c cs es e = absurd cc
parent-directory (Node.directory i attr es') c cs es e = refl

pub parent_last :
    (i : ℕ) (attr : FileAttr) (es es' : Entries) (c : Name)
    → parent (Node.directory i attr es) c [] ≡ some es'
    → es ≡ es'
unfolding parent
parent_last i attr es es' c e = cc

pub stat_parent :
    (inodes : Inodes) (t : Node) (c : Name) (cs : List Name) (es : Entries)
    → AreNames (c ∷ cs)
    → parent t c cs ≡ some es
    → traverse_stat inodes t (join c cs) ≡ stat_at inodes (lookup (last c cs) es) []
unfolding parent
stat_parent inodes (Node.ram_file i) c cs es h e = absurd cc
stat_parent inodes (Node.rom_file i) c cs es h e = absurd cc
stat_parent inodes (Node.directory i attr es') c [] es h e =
    let same : es' ≡ es = cc in
    stat_component inodes i attr es' c [] h.0 ∙ ap (λ z. stat_at inodes (lookup c z) []) same
stat_parent inodes (Node.directory i attr es') c (c' ∷ cs) es h e =
    let (node, l, p) = parent_step i attr es' es c c' cs e in
    stat_component inodes i attr es' c (c' ∷ cs) h.0
    ∙ rw (l, join_nonempty c' cs h.1.0.0, parent-directory node c' cs es p)
        (stat_parent inodes node c' cs es h.1 p)

module _ {R : Type 0} (missing : Errno) (here : Entries → Name → Outcome (R × Entries)) where
  -- What a traversal returns if the action succeeds.
  abbrev pub Acts : Node → Name → List Name → R → Entries → Type 0
  Acts t c cs r es' =
      (t' : Node) × (traverse missing here t (join c cs) ≡ ok (r, t')) × (parent t' c cs ≡ some es')

  pub acts_lem :
      (t : Node) (c : Name) (cs : List Name) (es es' : Entries) (r : R)
      → AreNames (c ∷ cs)
      → parent t c cs ≡ some es
      → here es (last c cs) ≡ ok (r, es')
      → Acts t c cs r es'
  unfolding parent
  acts_lem (Node.ram_file i) c cs es es' r h e a = absurd cc
  acts_lem (Node.rom_file i) c cs es es' r h e a = absurd cc
  acts_lem (Node.directory i attr es₀) c [] es es' r h e a =
      let same : es₀ ≡ es = cc in
      (
        Node.directory i attr es',
        traverse_last missing here i attr es₀ c h.0 ∙ rw (same, a) refl,
        refl,
      )
  acts_lem (Node.directory i attr es₀) c (c' ∷ cs) es es' r h e a =
      let (node, l, p) = parent_step i attr es₀ es c c' cs e in
      let (node', f, p') = acts_lem node c' cs es es' r h.1 p a in
      (
        Node.directory i attr (replace c node' es₀),
        traverse_more missing here i attr es₀ c c' cs h.0 h.1.0 ∙ rw (l, f) refl,
        rw (parent, lookup-replace c c node' es₀, same_text_refl c, l) p',
      )

  -- An action that fails is the failure of the traversal.
  pub fails_lem :
      (t : Node) (c : Name) (cs : List Name) (es : Entries) (x : Errno)
      → AreNames (c ∷ cs)
      → parent t c cs ≡ some es
      → here es (last c cs) ≡ err x
      → traverse missing here t (join c cs) ≡ err x
  unfolding parent
  fails_lem (Node.ram_file i) c cs es x h e a = absurd cc
  fails_lem (Node.rom_file i) c cs es x h e a = absurd cc
  fails_lem (Node.directory i attr es₀) c [] es x h e a =
      let same : es₀ ≡ es = cc in traverse_last missing here i attr es₀ c h.0 ∙ rw (same, a) refl
  fails_lem (Node.directory i attr es₀) c (c' ∷ cs) es x h e a =
      let (node, l, p) = parent_step i attr es₀ es c c' cs e in
      traverse_more missing here i attr es₀ c c' cs h.0 h.1.0
      ∙ rw (l, fails_lem node c' cs es x h.1 p a) refl

first_entry :
    (c n : Name) (t : Node) (es : Entries)
    → same_text n c ≡ true
    → lookup c (Entries.entry n t es) ≡ some t
unfolding lookup
first_entry c n t es e = rw e refl

later_entry :
    (c n : Name) (t : Node) (es : Entries)
    → same_text n c ≡ false
    → lookup c (Entries.entry n t es) ≡ lookup c es
unfolding lookup
later_entry c n t es e = rw e refl

pub lookup-IsTree :
    (c : Name) (es : Entries) (node : Node) → AreUnique es → lookup c es ≡ some node → IsTree node
unfolding lookup
lookup-IsTree c Entries.end node u l = absurd cc
lookup-IsTree c (Entries.entry n t es) node u l = elim (Bool-cases (same_text n c)) [
  | inl e ↦ let found = first_entry c n t es e in let same : t ≡ node = cc in subst IsTree same u.1
  | inr e ↦ lookup-IsTree c es node u.2 (sym (later_entry c n t es e) ∙ l)
]

-- The names in the directory of the last component are unique.
pub parent-AreUnique :
    (t : Node) (c : Name) (cs : List Name) (es : Entries)
    → IsTree t
    → parent t c cs ≡ some es
    → AreUnique es
unfolding parent
parent-AreUnique (Node.ram_file i) c cs es u e = absurd cc
parent-AreUnique (Node.rom_file i) c cs es u e = absurd cc
parent-AreUnique (Node.directory i attr es₀) c [] es u e =
    let same : es₀ ≡ es = cc in subst AreUnique same u
parent-AreUnique (Node.directory i attr es₀) c (c' ∷ cs) es u e =
    let (node, l, p) = parent_step i attr es₀ es c c' cs e in
    parent-AreUnique node c' cs es (lookup-IsTree c es₀ node u l) p
