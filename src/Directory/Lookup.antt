-- ===== src/Directory/Lookup.antt =====
-- The entries of a directory as a map from names to nodes.
use hermit_kernel.Base.{◌≡◌, refl, fun_ext, true, false, Option, none, some, arith}
use hermit_kernel.Base.Tests.{if◌then◌else◌}
use hermit_kernel.File.{Outcome, ok, err, panic}
use hermit_kernel.Directory.Paths.{Name, same_text, same_text_iff}
use hermit_kernel.Directory.{Node, Entries, end, entry, lookup, insert, remove, map_outcome}

pub map_outcome_twice :
    {A B C : Type 0} (f : B → C) (g : A → B) (o : Outcome A)
    → map_outcome f (map_outcome g o) ≡ map_outcome (λ a. f (g a)) o
map_outcome_twice f g (ok a) = refl
map_outcome_twice f g (err e) = refl
map_outcome_twice f g panic = refl

-- The entries with another node in the place of the first with the name.
unfoldable pub replace : Name → Node → Entries → Entries
replace c new end = end
replace c new (entry n node es) =
    let rest = replace c new es in if same_text n c then entry n new es else entry n node rest

pub replace-first :
    (c n : Name) (node : Node) (es : Entries)
    → same_text n c ≡ true
    → ◌≡◌ {A = Node → Entries} (λ x. replace c x (entry n node es)) (λ x. entry n x es)
unfolding replace
replace-first c n node es e = fun_ext (λ x. rw e refl)

pub replace-later :
    (c n : Name) (node : Node) (es : Entries)
    → same_text n c ≡ false
    → ◌≡◌ {A = Node → Entries}
        (λ x. replace c x (entry n node es))
        (λ x. entry n node (replace c x es))
unfolding replace
replace-later c n node es e = fun_ext (λ x. rw e refl)

abbrev pub instead : Option Node → Node → Option Node
instead none new = none
instead (some old) new = some new

pub lookup-replace :
    (c d : Name) (new : Node) (es : Entries)
    → lookup d (replace c new es)
      ≡ (if same_text c d then instead (lookup c es) new else lookup d es)
unfolding lookup replace
lookup-replace c d new end = ground arith
lookup-replace c d new (entry n node es) =
    ground
      (arith, same_text_iff c d, same_text_iff n c, same_text_iff n d, lookup-replace c d new es)

pub lookup-insert :
    (c d : Name) (new : Node) (es : Entries)
    → lookup d (insert c new es) ≡ (if same_text c d then some new else lookup d es)
unfolding lookup insert
lookup-insert c d new end = ground arith
lookup-insert c d new (entry n node es) =
    ground
      (arith, same_text_iff c d, same_text_iff n c, same_text_iff n d, lookup-insert c d new es)

-- No name stands twice in a directory, at any depth.
abbrev mutual
  pub IsTree : Node → Type 0
  IsTree (Node.ram_file i) = Unit
  IsTree (Node.rom_file i) = Unit
  IsTree (Node.directory i attr es) = AreUnique es

  pub AreUnique : Entries → Type 0
  AreUnique end = Unit
  AreUnique (entry n node es) = (lookup n es ≡ none) × IsTree node × AreUnique es

pub lookup-remove :
    (c d : Name) (es : Entries)
    → AreUnique es
    → lookup d (remove c es) ≡ (if same_text c d then none else lookup d es)
unfolding lookup remove
lookup-remove c d end u = ground arith
lookup-remove c d (entry n node es) u =
    ground
      (arith, same_text_iff c d, same_text_iff n c, same_text_iff n d, lookup-remove c d es u.2)
