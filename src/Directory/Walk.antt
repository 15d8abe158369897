-- ===== src/Directory/Walk.antt =====
-- The traversals along the components of a path.
use hermit_kernel.Base.{
  ℕ, ◌≡◌, refl, ap, sym, ◌∙◌, inl, inr, false, not, Option, none, some, List, [], ◌∷◌,
}
use hermit_kernel.Base.Tests.{if◌then◌else◌, Bool-cases}
use hermit_kernel.Base.Lists.{All}
use hermit_kernel.Errno.{Errno, badf, notdir}
use hermit_kernel.File.{Outcome, ok, err, panic, FileAttr}
use hermit_kernel.Directory.Paths.{
  Name, FilePath, same_text, is_empty, join, IsName, split-join_last, split-join_more,
}
use hermit_kernel.Directory.{
  Node, Entries, end, entry, Inodes, get_kind, is_file, get_file_attributes, lookup, map_outcome,
  traverse_stat, stat_entry, traverse, traverse_entry, past,
}
use hermit_kernel.Directory.Lookup.{replace, replace-first, replace-later, map_outcome_twice}

-- What there is to be said of an entry that may be there.
abbrev pub stat_at : Inodes → Option Node → FilePath → Outcome FileAttr
stat_at inodes none rest = err badf
stat_at inodes (some node) rest =
    if not (is_empty rest)
    then if is_file (get_kind node) then err notdir else traverse_stat inodes node rest
    else ok (get_file_attributes inodes node)

pub stat_entry_lem :
    (inodes : Inodes) (es : Entries) (c : Name) (rest : FilePath)
    → stat_entry inodes es c rest ≡ stat_at inodes (lookup c es) rest
unfolding traverse_stat lookup
stat_entry_lem inodes end c rest = refl
stat_entry_lem inodes (entry n node es) c rest = elim (Bool-cases (same_text n c)) [
  | inl e ↦ rw e refl
  | inr e ↦ rw e (stat_entry_lem inodes es c rest)
]

module _ {R : Type 0} (missing : Errno) (here : Entries → Name → Outcome (R × Entries)) where
  abbrev pub traverse_at : Option Node → Name → FilePath → Entries → Outcome (R × Entries)
  traverse_at none c rest es = err missing
  traverse_at (some node) c rest es =
      map_outcome (λ p. (p.0, replace c p.1 es)) (traverse missing here node rest)

  skip :
      (c : Name) (rest : FilePath) (n : Name) (node : Node) (es : Entries)
      → same_text n c ≡ false
      → (o : Option Node)
      → map_outcome (λ p. (p.0, past n node p.1)) (traverse_at o c rest es)
        ≡ traverse_at o c rest (entry n node es)
  skip c rest n node es e none = refl
  skip c rest n node es e (some found) =
      map_outcome_twice (λ p. (p.0, past n node p.1)) (λ p. (p.0, replace c p.1 es))
        (traverse missing here found rest)
      ∙ ap
          (λ (f : Node → Entries).
            map_outcome (λ p. (p.0, f p.1)) (traverse missing here found rest))
          (sym (replace-later c n node es e))

  pub traverse_entry_lem :
      (es : Entries) (c : Name) (rest : FilePath)
      → traverse_entry missing here es c rest ≡ traverse_at (lookup c es) c rest es
  unfolding traverse lookup replace
  traverse_entry_lem end c rest = refl
  traverse_entry_lem (entry n node es) c rest = elim (Bool-cases (same_text n c)) [
    | inl e ↦ rw e (
        ap
          (λ (f : Node → Entries).
            map_outcome (λ p. (p.0, f p.1)) (traverse missing here node rest))
          (sym (replace-first c n node es e)))
    | inr e ↦ rw (e, traverse_entry_lem es c rest) (skip c rest n node es e (lookup c es))
  ]

abbrev pub AreNames : List Name → Type 0
AreNames cs = All IsName cs

pub stat_last :
    (inodes : Inodes) (i : ℕ) (attr : FileAttr) (es : Entries) (c : Name)
    → IsName c
    → traverse_stat inodes (Node.directory i attr es) (join c []) ≡ stat_at inodes (lookup c es) []
unfolding traverse_stat
stat_last inodes i attr es c h = rw (split-join_last c h.1) (stat_entry_lem inodes es c [])

pub stat_more :
    (inodes : Inodes) (i : ℕ) (attr : FileAttr) (es : Entries) (c d : Name) (ds : List Name)
    → IsName c
    → traverse_stat inodes (Node.directory i attr es) (join c (d ∷ ds))
      ≡ stat_at inodes (lookup c es) (join d ds)
unfolding traverse_stat
stat_more inodes i attr es c d ds h =
    rw (split-join_more c d ds h.1) (stat_entry_lem inodes es c (join d ds))

pub map_outcome-ok :
    {A B : Type 0} (f : A → B) (o : Outcome A) (b : B)
    → map_outcome f o ≡ ok b
    → (a : A) × (o ≡ ok a) × (f a ≡ b)
map_outcome-ok f (ok a) b h = (a, refl, cc)
map_outcome-ok f (err e) b h = absurd cc
map_outcome-ok f panic b h = absurd cc
