-- ===== src/Directory/Listing.antt =====
-- What mkdir, mount and readdir do: src/fs/mem.rs, traverse_mkdir, traverse_mount and
-- traverse_readdir.
use hermit_kernel.Base.{
  ℕ, ◌≡◌, refl, ap, sym, ◌∙◌, inl, inr, Bool, false, not, Option, none, some, List, [], ◌∷◌,
}
use hermit_kernel.Base.Tests.{Bool-cases}
use hermit_kernel.Errno.{badf, nosys}
use hermit_kernel.File.{Outcome, ok, err, panic, FileAttr}
use hermit_kernel.Directory.Paths.{
  Name, FilePath, same_text, join, join_nonempty, split-join_last, split-join_more, split_empty,
  split_once-join_last, split_once-join_more, IsName,
}
use hermit_kernel.Directory.{
  Node, Entries, end, entry, Inodes, get_kind, is_file, get_file_attributes, lookup, insert,
  map_outcome, past, keys, traverse, traverse_new, new_entry, traverse_readdir, readdir_entry,
}
use hermit_kernel.Directory.Lookup.{
  replace, lookup-replace, replace-first, replace-later, map_outcome_twice,
}
use hermit_kernel.Directory.Walk.{AreNames, traverse_at, map_outcome-ok}
use hermit_kernel.Directory.Steps.{traverse_last, traverse_more}
use hermit_kernel.Directory.Frame.{extends, KeepsOthers}
use hermit_kernel.Directory.Parent.{
  last, parent, parent_last, parent-directory, parent_step, acts_lem, fails_lem,
}
use hermit_kernel.Directory.Changes.{Changes, changes_lem, insert-others, insert-own}

-- What the entries of a directory come to, if there is one with the name.
abbrev pub new_at : Option Node → Name → FilePath → Entries → Node → Option (Outcome Entries)
new_at none c rest es new = none
new_at (some node) c rest es new =
    some (map_outcome (λ n. replace c n es) (traverse_new node rest new))

new_later :
    (c : Name) (rest : FilePath) (n : Name) (node new : Node) (es : Entries)
    → same_text n c ≡ false
    → (o : Option Node)
    → (elim (new_at o c rest es new) [
      | none ↦ none
      | some out ↦ some (map_outcome (past n node) out)
    ])
      ≡ new_at o c rest (entry n node es) new
new_later c rest n node new es e none = refl
new_later c rest n node new es e (some found) = ap some (
    map_outcome_twice (past n node) (λ p. replace c p es) (traverse_new found rest new)
    ∙ ap (λ (f : Node → Entries). map_outcome f (traverse_new found rest new))
        (sym (replace-later c n node es e)))

new_entry_lem :
    (es : Entries) (c : Name) (rest : FilePath) (new : Node)
    → new_entry es c rest new ≡ new_at (lookup c es) c rest es new
unfolding traverse_new lookup
new_entry_lem end c rest new = refl
new_entry_lem (entry n node es) c rest new = elim (Bool-cases (same_text n c)) [
  | inl e ↦ rw e (
      ap (λ (f : Node → Entries). some (map_outcome f (traverse_new node rest new)))
        (sym (replace-first c n node es e)))
  | inr e ↦ rw (e, new_entry_lem es c rest new) (new_later c rest n node new es e (lookup c es))
]

-- What making a node does at the last component: one that is there makes it below itself, under the
-- path that is left.
abbrev pub new_found : Node → Entries → Name → Option Node → Outcome (Unit {0} × Entries)
new_found new es c none = ok (tt, insert c new es)
new_found new es c (some node) = map_outcome (λ n. (tt, replace c n es)) (traverse_new node [] new)

pub new_here : Node → Entries → Name → Outcome (Unit {0} × Entries)
new_here new es c = new_found new es c (lookup c es)

abbrev pub done : {A : Type 0} → Outcome A → Outcome (Unit {0} × A)
done o = map_outcome (λ a. (tt, a)) o

done-replace :
    (i : ℕ) (attr : FileAttr) (es : Entries) (c : Name) (o : Outcome Node)
    → done (map_outcome (Node.directory i attr) (map_outcome (λ n. replace c n es) o))
      ≡ map_outcome (λ p. (p.0, Node.directory i attr (replace c p.1 es))) (done o)
done-replace i attr es c (ok n) = refl
done-replace i attr es c (err e) = refl
done-replace i attr es c panic = refl

done_here :
    (i : ℕ) (attr : FileAttr) (es : Entries) (c : Name) (o : Outcome Node)
    → done (map_outcome (Node.directory i attr) (map_outcome (λ n. replace c n es) o))
      ≡ map_outcome {A = Unit {0} × Entries}
          (λ p. (p.0, Node.directory i attr p.1))
          (map_outcome (λ n. (tt, replace c n es)) o)
done_here i attr es c (ok n) = refl
done_here i attr es c (err e) = refl
done_here i attr es c panic = refl

new_last :
    (i : ℕ) (attr : FileAttr) (es : Entries) (c : Name) (new : Node) (o : Option Node)
    → lookup c es ≡ o
    → IsName c
    → done (traverse_new (Node.directory i attr es) (join c []) new)
      ≡ map_outcome (λ p. (p.0, Node.directory i attr p.1)) (new_found new es c o)
unfolding traverse_new
new_last i attr es c new none l h = rw (split-join_last c h.1, new_entry_lem es c [] new, l) refl
new_last i attr es c new (some node) l h =
    rw (split-join_last c h.1, new_entry_lem es c [] new, l)
      (done_here i attr es c (traverse_new node [] new))

-- What making a node does before the last component.
abbrev pub new_below : Option Node → Name → FilePath → Entries → Node → Outcome (Unit {0} × Entries)
new_below none c rest es new = err badf
new_below (some node) c rest es new =
    map_outcome (λ p. (p.0, replace c p.1 es)) (done (traverse_new node rest new))

new_more :
    (i : ℕ) (attr : FileAttr) (es : Entries) (c d : Name) (ds : List Name) (new : Node)
    (o : Option Node)
    → lookup c es ≡ o
    → IsName c
    → IsName d
    → done (traverse_new (Node.directory i attr es) (join c (d ∷ ds)) new)
      ≡ map_outcome (λ p. (p.0, Node.directory i attr p.1)) (new_below o c (join d ds) es new)
unfolding traverse_new
new_more i attr es c d ds new none l h k =
    rw (split-join_more c d ds h.1, new_entry_lem es c (join d ds) new, l, join_nonempty d ds k.0)
      refl
new_more i attr es c d ds new (some node) l h k =
    rw (split-join_more c d ds h.1, new_entry_lem es c (join d ds) new, l)
      (done-replace i attr es c (traverse_new node (join d ds) new)
        ∙ sym (
            map_outcome_twice (λ p. (p.0, Node.directory i attr p.1)) (λ p. (p.0, replace c p.1 es))
              (done (traverse_new node (join d ds) new))))

-- Making a node is the walk to the last component that the other operations take.
pub new_lem :
    (t : Node) (c : Name) (cs : List Name) (new : Node)
    → AreNames (c ∷ cs)
    → done (traverse_new t (join c cs) new) ≡ traverse badf (new_here new) t (join c cs)
unfolding traverse_new traverse new_here
new_lem (Node.ram_file i) c cs new h = refl
new_lem (Node.rom_file i) c cs new h = refl
new_lem (Node.directory i attr es) c [] new h =
    new_last i attr es c new (lookup c es) refl h.0
    ∙ sym (traverse_last badf (new_here new) i attr es c h.0)
new_lem (Node.directory i attr es) c (d ∷ ds) new h =
    new_more i attr es c d ds new (lookup c es) refl h.0 h.1.0
    ∙ ap (map_outcome (λ p. (p.0, Node.directory i attr p.1)))
        (below (λ node. new_lem node d ds new h.1) (lookup c es))
    ∙ sym (traverse_more badf (new_here new) i attr es c d ds h.0 h.1.0)
  where
    below :
        ((node : Node)
          → done (traverse_new node (join d ds) new)
            ≡ traverse badf (new_here new) node (join d ds))
        → (o : Option Node)
        → new_below o c (join d ds) es new ≡ traverse_at badf (new_here new) o c (join d ds) es
    below g none = refl
    below g (some node) = ap (map_outcome (λ p. (p.0, replace c p.1 es))) (g node)

made_others :
    (new : Node) (es es' : Entries) (c d : Name) (r : Unit {0}) (o : Option Node)
    → new_found new es c o ≡ ok (r, es')
    → same_text c d ≡ false
    → lookup d es' ≡ lookup d es
made_others new es es' c d r none h x =
    let same : es' ≡ insert c new es = cc in ap (lookup d) same ∙ insert-others c d new es x
made_others new es es' c d r (some node) h x =
    let (n, f, g) =
      map_outcome-ok {A = Node} {B = Unit {0} × Entries} (λ n. (tt, replace c n es))
        (traverse_new node [] new) (r, es') h in
    ap (lookup d) (sym (ap (λ p. p.1) g)) ∙ rw (lookup-replace c d n es, x) refl

new_here-KeepsOthers : (new : Node) → KeepsOthers (new_here new)
unfolding new_here
new_here-KeepsOthers new es es' c d r e x = made_others new es es' c d r (lookup c es) e x

nameless :
    (i : ℕ) (attr : FileAttr) (es : Entries) (new : Node)
    → lookup [] es ≡ none
    → traverse_new (Node.directory i attr es) [] new ≡ ok (Node.directory i attr (insert [] new es))
unfolding traverse_new
nameless i attr es new l = rw (split_empty, new_entry_lem es [] [] new, l) refl

abbrev pub holds_directory : Option Node → Bool
holds_directory none = false
holds_directory (some node) = not (is_file (get_kind node))

-- What there is at the path decides.
abbrev pub Making :
    Inodes → Node → Node → FilePath → FilePath → Outcome (Unit {0} × Node) → Option Node → Type 0
Making inodes new t path other out none =
    Changes inodes t path other out tt (ok (get_file_attributes inodes new))
Making inodes new t path other out (some node) = out ≡ err nosys

-- Making a directory, or mounting a node, at the path of a missing entry of a directory: the path
-- then has the attributes of the new node, and the status of every path that does not go on from
-- this one is as before. If there is a file at the path the result is ENOSYS.
pub mkdir_lem :
    (inodes : Inodes) (new t : Node) (c : Name) (cs : List Name) (d : Name) (ds : List Name)
    (es : Entries) (o : Option Node)
    → AreNames (c ∷ cs)
    → AreNames (d ∷ ds)
    → extends c cs d ds ≡ false
    → parent t c cs ≡ some es
    → lookup (last c cs) es ≡ o
    → holds_directory o ≡ false
    → Making inodes new t (join c cs) (join d ds) (done (traverse_new t (join c cs) new)) o
unfolding new_here traverse_new
mkdir_lem inodes new t c cs d ds es none h k x p l w =
    let (t', f, s, o) =
      changes_lem badf (new_here new) (new_here-KeepsOthers new) inodes t c cs d ds es
        (insert (last c cs) new es) tt h k x p (rw l refl) in
    (t', new_lem t c cs new h ∙ f, s ∙ rw (insert-own (last c cs) new es) refl, o)
mkdir_lem inodes new t c cs d ds es (some (Node.ram_file i)) h k x p l w =
    new_lem t c cs new h ∙ fails_lem badf (new_here new) t c cs es nosys h p (rw l refl)
mkdir_lem inodes new t c cs d ds es (some (Node.rom_file i)) h k x p l w =
    new_lem t c cs new h ∙ fails_lem badf (new_here new) t c cs es nosys h p (rw l refl)
mkdir_lem inodes new t c cs d ds es (some (Node.directory i attr es₂)) h k x p l w = absurd cc

-- Making a directory, or mounting a node, at the path of a directory succeeds, and puts the new
-- node under the empty name into that directory, if there was none with this name.
pub mkdir_again :
    (new t : Node) (c : Name) (cs : List Name) (es es₂ : Entries) (i : ℕ) (attr : FileAttr)
    → AreNames (c ∷ cs)
    → parent t c cs ≡ some es
    → lookup (last c cs) es ≡ some (Node.directory i attr es₂)
    → lookup [] es₂ ≡ none
    → (t' : Node) × (done (traverse_new t (join c cs) new) ≡ ok (tt, t'))
      × (parent t' c cs ≡ some (replace (last c cs) (Node.directory i attr (insert [] new es₂)) es))
unfolding new_here
mkdir_again new t c cs es es₂ i attr h p l m =
    let (t', f, q) =
      acts_lem badf (new_here new) t c cs es
        (replace (last c cs) (Node.directory i attr (insert [] new es₂)) es) tt h p
        (rw (l, nameless i attr es₂ new m) refl) in
    (t', new_lem t c cs new h ∙ f, q)

abbrev pub readdir_at : Option Node → FilePath → Outcome (List Name)
readdir_at none rest = err badf
readdir_at (some node) rest = traverse_readdir node rest

readdir_entry_lem :
    (es : Entries) (c : Name) (rest : FilePath)
    → readdir_entry es c rest ≡ readdir_at (lookup c es) rest
unfolding traverse_readdir lookup
readdir_entry_lem end c rest = refl
readdir_entry_lem (entry n node es) c rest = elim (Bool-cases (same_text n c)) [
  | inl e ↦ rw e refl
  | inr e ↦ rw e (readdir_entry_lem es c rest)
]

-- Reading the directory at a path returns the names of the entries of the directory that holds the
-- last component, whatever this component is.
pub readdir_lem :
    (t : Node) (c : Name) (cs : List Name) (es : Entries)
    → AreNames (c ∷ cs)
    → parent t c cs ≡ some es
    → traverse_readdir t (join c cs) ≡ ok (keys es)
unfolding traverse_readdir
readdir_lem (Node.ram_file i) c cs es h p =
    let no = parent-directory (Node.ram_file i) c cs es p in absurd cc
readdir_lem (Node.rom_file i) c cs es h p =
    let no = parent-directory (Node.rom_file i) c cs es p in absurd cc
readdir_lem (Node.directory i attr es₀) c [] es h p =
    rw (split_once-join_last c h.0.1, parent_last i attr es₀ es c p) refl
readdir_lem (Node.directory i attr es₀) c (d ∷ ds) es h p =
    let (node, l, q) = parent_step i attr es₀ es c d ds p in
    rw
      (
        split_once-join_more c d ds h.0.1,
        split-join_more c d ds h.0.1,
        readdir_entry_lem es₀ c (join d ds),
        l,
      )
      (readdir_lem node d ds es h.1 q)
