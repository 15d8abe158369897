-- ===== src/Directory/Unused.antt =====
-- A file that is new in the tables of src/fs/mem.rs leaves the status of the paths of a tree as it
-- was.
use hermit_kernel.Base.{
  ℕ, ◌≡◌, ◌≢◌, refl, ap, sym, ◌∙◌, inl, inr, not, Option, none, some, List, [], ◌∷◌, arith,
}
use hermit_kernel.Base.Tests.{if◌then◌else◌, Bool-cases, ==_refl}
use hermit_kernel.Errno.{badf, notdir}
use hermit_kernel.File.{Outcome, ok, err, FileAttr, RamFileInner, RomFileInner}
use hermit_kernel.Directory.Paths.{Name, same_text, join, is_empty}
use hermit_kernel.Directory.{
  Node, Entries, end, entry, Inodes, get_kind, is_file, get_file_attributes, lookup, traverse_stat,
  with_ram, with_rom,
}
use hermit_kernel.Directory.Walk.{stat_at, AreNames}
use hermit_kernel.Directory.Frame.{stat_component}

-- No file of the tree has the number.
abbrev mutual
  pub IsUnused : ℕ → Node → Type 0
  IsUnused k (Node.ram_file i) = i ≢ k
  IsUnused k (Node.rom_file i) = i ≢ k
  IsUnused k (Node.directory i attr es) = IsUnusedIn k es

  pub IsUnusedIn : ℕ → Entries → Type 0
  IsUnusedIn k end = Unit
  IsUnusedIn k (entry n node es) = IsUnused k node × IsUnusedIn k es

-- The tables agree but for files with the number.
pub record Agree (k : ℕ) (inodes inodes' : Inodes) : Type 0 where
  pub rams : (i : ℕ) → i ≢ k → inodes'.rams i ≡ inodes.rams i
  pub roms : (i : ℕ) → i ≢ k → inodes'.roms i ≡ inodes.roms i

pub with_ram-Agree :
    (inodes : Inodes) (k : ℕ) (f : RamFileInner) → Agree k inodes (with_ram inodes k (some f))
with_ram-Agree inodes k f = record { rams = λ i n. ground (arith, n); roms = λ i n. refl }

pub with_rom-Agree :
    (inodes : Inodes) (k : ℕ) (f : RomFileInner) → Agree k inodes (with_rom inodes k f)
with_rom-Agree inodes k f = record { rams = λ i n. refl; roms = λ i n. ground (arith, n) }

pub own_ram : (inodes : Inodes) (k : ℕ) (f : RamFileInner) → (with_ram inodes k (some f)).rams k ≡ f
own_ram inodes k f = rw (==_refl k) refl

pub own_rom : (inodes : Inodes) (k : ℕ) (f : RomFileInner) → (with_rom inodes k f).roms k ≡ f
own_rom inodes k f = rw (==_refl k) refl

module _ (k : ℕ) (inodes inodes' : Inodes) (g : Agree k inodes inodes') where
  same_attributes :
      (node : Node)
      → IsUnused k node
      → get_file_attributes inodes' node ≡ get_file_attributes inodes node
  same_attributes (Node.ram_file i) u = ap (λ f. f.attr) (g.rams i u)
  same_attributes (Node.rom_file i) u = ap (λ f. f.attr) (g.roms i u)
  same_attributes (Node.directory i attr es) u = refl

  -- No file below what may be there has the number.
  abbrev IsUnusedAt : Option Node → Type 0
  IsUnusedAt none = Unit
  IsUnusedAt (some node) = IsUnused k node

  lookup-IsUnusedAt : (c : Name) (es : Entries) → IsUnusedIn k es → IsUnusedAt (lookup c es)
  unfolding lookup
  lookup-IsUnusedAt c end u = tt
  lookup-IsUnusedAt c (entry n node es) u = elim (Bool-cases (same_text n c)) [
    | inl s ↦ rw s u.0
    | inr s ↦ rw s (lookup-IsUnusedAt c es u.1)
  ]

  stat_here : (o : Option Node) → IsUnusedAt o → stat_at inodes' o [] ≡ stat_at inodes o []
  stat_here none u = refl
  stat_here (some node) u = ap ok (same_attributes node u)

  stat_below :
      (o : Option Node) (d : Name) (ds : List Name)
      → IsUnusedAt o
      → ((node : Node)
          → IsUnused k node
          → traverse_stat inodes' node (join d ds) ≡ traverse_stat inodes node (join d ds))
      → stat_at inodes' o (join d ds) ≡ stat_at inodes o (join d ds)
  stat_below none d ds u same = refl
  stat_below (some node) d ds u same =
      ap
        (λ (x : Outcome FileAttr).
          if not (is_empty (join d ds))
          then if is_file (get_kind node) then err notdir else x
          else ok (get_file_attributes inodes' node))
        (same node u)
      ∙ ap
          (λ (x : FileAttr).
            if not (is_empty (join d ds))
            then if is_file (get_kind node)
              then err notdir
              else traverse_stat inodes node (join d ds)
            else ok x)
          (same_attributes node u)

  -- Every path of a tree without a file of the number has the status that it had.
  pub traverse_stat-unused :
      (node : Node) (d : Name) (ds : List Name)
      → AreNames (d ∷ ds)
      → IsUnused k node
      → traverse_stat inodes' node (join d ds) ≡ traverse_stat inodes node (join d ds)
  unfolding traverse_stat
  traverse_stat-unused (Node.ram_file i) d ds h u =
      ap (λ f. if is_empty (join d ds) then ok f.attr else err badf) (g.rams i u)
  traverse_stat-unused (Node.rom_file i) d ds h u =
      ap (λ f. if is_empty (join d ds) then ok f.attr else err badf) (g.roms i u)
  traverse_stat-unused (Node.directory i attr es) d [] h u =
      stat_component inodes' i attr es d [] h.0
      ∙ stat_here (lookup d es) (lookup-IsUnusedAt d es u)
      ∙ sym (stat_component inodes i attr es d [] h.0)
  traverse_stat-unused (Node.directory i attr es) d (d' ∷ ds) h u =
      stat_component inodes' i attr es d (d' ∷ ds) h.0
      ∙ stat_below (lookup d es) d' ds (lookup-IsUnusedAt d es u)
          (λ node v. traverse_stat-unused node d' ds h.1 v)
      ∙ sym (stat_component inodes i attr es d (d' ∷ ds) h.0)
