-- ===== src/Directory/Steps.antt =====
-- One component of a path at a time: what a traversal that succeeds did.
use hermit_kernel.Base.{ℕ, ◌≡◌, refl, ap, sym, ◌∙◌, Option, none, some, List, [], ◌∷◌}
use hermit_kernel.Errno.{Errno}
use hermit_kernel.File.{Outcome, ok, FileAttr}
use hermit_kernel.Directory.Paths.{
  Name, FilePath, join, IsName, split-join_last, split-join_more, join_nonempty,
}
use hermit_kernel.Directory.{Node, Entries, lookup, map_outcome, traverse}
use hermit_kernel.Directory.Lookup.{replace}
use hermit_kernel.Directory.Walk.{traverse_at, traverse_entry_lem, map_outcome-ok}

module _ {R : Type 0} (missing : Errno) (here : Entries → Name → Outcome (R × Entries)) where
  pub traverse_last :
      (i : ℕ) (attr : FileAttr) (es : Entries) (c : Name)
      → IsName c
      → traverse missing here (Node.directory i attr es) (join c [])
        ≡ map_outcome (λ p. (p.0, Node.directory i attr p.1)) (here es c)
  unfolding traverse
  traverse_last i attr es c h = rw (split-join_last c h.1) refl

  pub traverse_more :
      (i : ℕ) (attr : FileAttr) (es : Entries) (c d : Name) (ds : List Name)
      → IsName c
      → IsName d
      → traverse missing here (Node.directory i attr es) (join c (d ∷ ds))
        ≡ map_outcome
            (λ p. (p.0, Node.directory i attr p.1))
            (traverse_at missing here (lookup c es) c (join d ds) es)
  unfolding traverse
  traverse_more i attr es c d ds h k =
      rw
        (
          split-join_more c d ds h.1,
          join_nonempty d ds k.0,
          traverse_entry_lem missing here es c (join d ds),
        )
        refl

  -- What a traversal did at the last component.
  abbrev pub ActsHere : ℕ → FileAttr → Entries → Name → R → Node → Type 0
  ActsHere i attr es c r t' =
      (es' : Entries) × (here es c ≡ ok (r, es')) × (t' ≡ Node.directory i attr es')

  -- What a traversal did at a component before the last.
  abbrev pub ActsBelow : ℕ → FileAttr → Entries → Name → FilePath → R → Node → Type 0
  ActsBelow i attr es c rest r t' =
      (node : Node) × (node' : Node) × (lookup c es ≡ some node)
      × (traverse missing here node rest ≡ ok (r, node'))
      × (t' ≡ Node.directory i attr (replace c node' es))

  pub acts_here :
      (i : ℕ) (attr : FileAttr) (es : Entries) (c : Name) (r : R) (t' : Node)
      → IsName c
      → traverse missing here (Node.directory i attr es) (join c []) ≡ ok (r, t')
      → ActsHere i attr es c r t'
  acts_here i attr es c r t' h e =
      let ((r', es'), f, g) =
        map_outcome-ok {A = R × Entries} {B = R × Node} (λ p. (p.0, Node.directory i attr p.1))
          (here es c) (r, t') (sym (traverse_last i attr es c h) ∙ e) in
      (es', f ∙ ap (λ x. ok (x, es')) (ap (λ p. p.0) g), sym (ap (λ p. p.1) g))

  below_at :
      (i : ℕ) (attr : FileAttr) (es : Entries) (c : Name) (rest : FilePath) (r : R) (t' : Node)
      (o : Option Node)
      → lookup c es ≡ o
      → map_outcome {A = R × Entries} {B = R × Node}
          (λ p. (p.0, Node.directory i attr p.1))
          (traverse_at missing here o c rest es)
        ≡ ok (r, t')
      → ActsBelow i attr es c rest r t'
  below_at i attr es c rest r t' none l e = absurd cc
  below_at i attr es c rest r t' (some node) l e =
      let (a, f, g) =
        map_outcome-ok {A = R × Entries} {B = R × Node} (λ p. (p.0, Node.directory i attr p.1))
          (traverse_at missing here (some node) c rest es) (r, t') e in
      let (b, f', g') =
        map_outcome-ok {A = R × Node} {B = R × Entries} (λ p. (p.0, replace c p.1 es))
          (traverse missing here node rest) a f in
      let same : b.0 ≡ r = ap (λ p. p.0) g' ∙ ap (λ p. p.0) g in
      (
        node,
        b.1,
        l,
        f' ∙ ap (λ x. ok (x, b.1)) same,
        sym (ap (λ p. p.1) g) ∙ sym (ap (λ p. Node.directory i attr p.1) g'),
      )

  pub acts_below :
      (i : ℕ) (attr : FileAttr) (es : Entries) (c d : Name) (ds : List Name) (r : R) (t' : Node)
      → IsName c
      → IsName d
      → traverse missing here (Node.directory i attr es) (join c (d ∷ ds)) ≡ ok (r, t')
      → ActsBelow i attr es c (join d ds) r t'
  acts_below i attr es c d ds r t' h k e =
      below_at i attr es c (join d ds) r t' (lookup c es) refl
        (sym (traverse_more i attr es c d ds h k) ∙ e)
