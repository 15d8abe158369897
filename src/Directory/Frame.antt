-- ===== src/Directory/Frame.antt =====
-- What a traversal leaves as it was.
use mathlib.Core.Path.{subst}
use hermit_kernel.Base.{
  ℕ, ◌≡◌, refl, ap, sym, ◌∙◌, inl, inr, Bool, true, false, ◌&&◌, some, List, [], ◌∷◌,
}
use hermit_kernel.Base.Tests.{if◌then◌else◌, Bool-cases}
use hermit_kernel.Errno.{Errno}
use hermit_kernel.File.{Outcome, ok, FileAttr}
use hermit_kernel.Directory.Paths.{
  Name, FilePath, same_text, same_text_iff, join, IsName, join_nonempty,
}
use hermit_kernel.Directory.{
  Node, Entries, Inodes, get_kind, get_file_attributes, lookup, traverse, traverse_stat,
}
use hermit_kernel.Directory.Lookup.{replace, lookup-replace, instead}
use hermit_kernel.Directory.Walk.{stat_at, stat_last, stat_more, AreNames, map_outcome-ok}
use hermit_kernel.Directory.Steps.{acts_here, acts_below}

-- Whether the second path is the first one, or goes on from it.
unfoldable pub extends : Name → List Name → Name → List Name → Bool
extends c [] d ds = same_text c d
extends c (c' ∷ cs) d [] = false
extends c (c' ∷ cs) d (d' ∷ ds) = same_text c d && extends c' cs d' ds

-- A path without its first component.
abbrev pub rest_of : List Name → FilePath
rest_of [] = []
rest_of (d ∷ ds) = join d ds

pub stat_component :
    (inodes : Inodes) (i : ℕ) (attr : FileAttr) (es : Entries) (d : Name) (ds : List Name)
    → IsName d
    → traverse_stat inodes (Node.directory i attr es) (join d ds)
      ≡ stat_at inodes (lookup d es) (rest_of ds)
stat_component inodes i attr es d [] h = stat_last inodes i attr es d h
stat_component inodes i attr es d (d' ∷ ds) h = stat_more inodes i attr es d d' ds h

-- What an action on one directory leaves: the entries with other names.
abbrev pub KeepsOthers : {R : Type 0} → (Entries → Name → Outcome (R × Entries)) → Type 0
KeepsOthers {R} here =
    (es es' : Entries) (c d : Name) (r : R)
    → here es c ≡ ok (r, es')
    → same_text c d ≡ false
    → lookup d es' ≡ lookup d es

-- A node of the same kind with the same attributes.
abbrev pub IsLike : Inodes → Node → Node → Type 0
IsLike inodes t t' =
    (get_kind t' ≡ get_kind t) × (get_file_attributes inodes t' ≡ get_file_attributes inodes t)

module _ {R : Type 0} (missing : Errno) (here : Entries → Name → Outcome (R × Entries))
    (local : KeepsOthers here) (inodes : Inodes) where
  pub traverse-IsLike :
      (t t' : Node) (path : FilePath) (r : R)
      → traverse missing here t path ≡ ok (r, t')
      → IsLike inodes t t'
  unfolding traverse
  traverse-IsLike (Node.ram_file i) t' path r e = absurd cc
  traverse-IsLike (Node.rom_file i) t' path r e = absurd cc
  traverse-IsLike (Node.directory i attr es) t' path r e =
      let (a, f, g) =
        map_outcome-ok {A = R × Entries} {B = R × Node} (λ p. (p.0, Node.directory i attr p.1)) _
          (r, t') e in
      subst (IsLike inodes (Node.directory i attr es)) (ap (λ p. p.1) g) (refl, refl)

  same_component :
      (node node' : Node) (d' : Name) (ds : List Name)
      → IsName d'
      → IsLike inodes node node'
      → traverse_stat inodes node' (join d' ds) ≡ traverse_stat inodes node (join d' ds)
      → stat_at inodes (some node') (join d' ds) ≡ stat_at inodes (some node) (join d' ds)
  same_component node node' d' ds h like e = rw (join_nonempty d' ds h.0, like.0, e) refl

  replaced_stat :
      (c d : Name) (es : Entries) (node node' : Node) (rest : FilePath)
      → lookup c es ≡ some node
      → (same_text c d ≡ true → stat_at inodes (some node') rest ≡ stat_at inodes (some node) rest)
      → stat_at inodes (if same_text c d then instead (lookup c es) node' else lookup d es) rest
        ≡ stat_at inodes (lookup d es) rest
  replaced_stat c d es node node' rest l p = elim (Bool-cases (same_text c d)) [
    | inl e ↦
        let m : lookup d es ≡ some node =
          ap (λ z. lookup z es) (sym ((same_text_iff c d).0 e)) ∙ l in
        rw (e, l, m) (p e)
    | inr e ↦ rw e refl
  ]

  -- The path goes on from the component that was changed below.
  pub kept :
      (c : Name) (cs : List Name) (d : Name) (ds : List Name) (t t' : Node) (r : R)
      → AreNames (c ∷ cs)
      → AreNames (d ∷ ds)
      → extends c cs d ds ≡ false
      → traverse missing here t (join c cs) ≡ ok (r, t')
      → traverse_stat inodes t' (join d ds) ≡ traverse_stat inodes t (join d ds)
  unfolding extends traverse
  kept c cs d ds (Node.ram_file i) t' r h k x e = absurd cc
  kept c cs d ds (Node.rom_file i) t' r h k x e = absurd cc
  kept c [] d ds (Node.directory i attr es) t' r h k x e =
      let (es', f, g) = acts_here missing here i attr es c r t' h.0 e in
      rw
        (
          g,
          stat_component inodes i attr es' d ds k.0,
          stat_component inodes i attr es d ds k.0,
          local es es' c d r f x,
        )
        refl
  kept c (c' ∷ cs) d [] (Node.directory i attr es) t' r h k x e =
      let (node, node', l, f, g) = acts_below missing here i attr es c c' cs r t' h.0 h.1.0 e in
      let like = traverse-IsLike node node' (join c' cs) r f in
      rw
        (
          g,
          stat_component inodes i attr (replace c node' es) d [] k.0,
          stat_component inodes i attr es d [] k.0,
          lookup-replace c d node' es,
        )
        (replaced_stat c d es node node' [] l (λ _. ap ok (like.1)))
  kept c (c' ∷ cs) d (d' ∷ ds) (Node.directory i attr es) t' r h k x e =
      let (node, node', l, f, g) = acts_below missing here i attr es c c' cs r t' h.0 h.1.0 e in
      let like = traverse-IsLike node node' (join c' cs) r f in
      rw
        (
          g,
          stat_component inodes i attr (replace c node' es) d (d' ∷ ds) k.0,
          stat_component inodes i attr es d (d' ∷ ds) k.0,
          lookup-replace c d node' es,
        )
        (replaced_stat c d es node node' (join d' ds) l (λ same.
          let y : extends c' cs d' ds ≡ false =
            subst (λ b. (b && extends c' cs d' ds) ≡ false) same x in
          same_component node node' d' ds k.1.0 like (kept c' cs d' ds node node' r h.1 k.1 y f)))
