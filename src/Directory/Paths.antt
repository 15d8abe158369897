-- ===== src/Directory/Paths.antt =====
-- Paths of the memory file system (src/fs/mem.rs): texts of bytes whose components
-- are separated by slashes.
use hermit_kernel.Base.{
  ℕ, ◌≡◌, ◌↔◌, refl, Bool, true, false, ◌&&◌, Option, none, some, List, [], ◌∷◌, ◌++◌, arith,
}
use hermit_kernel.Base.Tests.{◌==◌, ltb, if◌then◌else◌}
use hermit_kernel.Base.Lists.{All}

abbrev pub Name : Type 0
Name = List ℕ

abbrev pub FilePath : Type 0
FilePath = List ℕ

abbrev pub slash : ℕ
slash = b'/'

-- Whether two texts are the same.
unfoldable pub same_text : Name → Name → Bool
same_text [] [] = true
same_text [] (b ∷ bs) = false
same_text (a ∷ as') [] = false
same_text (a ∷ as') (b ∷ bs) = a == b && same_text as' bs

-- The order of texts by their bytes.
pub text_lt : Name → Name → Bool
text_lt [] [] = false
text_lt [] (b ∷ bs) = true
text_lt (a ∷ as') [] = false
text_lt (a ∷ as') (b ∷ bs) = let rest = text_lt as' bs in if a == b then rest else ltb a b

abbrev pub is_empty : List ℕ → Bool
is_empty [] = true
is_empty (b ∷ bs) = false

-- `split_once("/")`
pub split_once : FilePath → Option (Name × FilePath)
split_once [] = none
split_once (b ∷ bs) =
    let rest = split_once bs in
    if b == slash
    then some ([], bs)
    else elim rest [ none ↦ none | some (component, left) ↦ some (b ∷ component, left) ]

-- `split_once("/").unwrap_or((path, ""))`
pub split : FilePath → Name × FilePath
unfolding split_once
split path = elim (split_once path) [ none ↦ (path, []) | some parts ↦ parts ]

pub same_text_iff : (a b : Name) → (same_text a b ≡ true) ↔ (a ≡ b)
unfolding same_text
same_text_iff [] [] = (λ h. refl, λ h. refl)
same_text_iff [] (b ∷ bs) = (λ h. cc, λ h. cc)
same_text_iff (a ∷ as') [] = (λ h. cc, λ h. cc)
same_text_iff (a ∷ as') (b ∷ bs) =
    let (f, g) = same_text_iff as' bs in (λ h. ground arith, λ h. ground arith)

pub same_text_refl : (a : Name) → same_text a a ≡ true
same_text_refl a = (same_text_iff a a).1 refl

-- A component of a path: not empty, and without a slash.
abbrev pub HasNoSlash : Name → Type 0
HasNoSlash c = All (λ b. (b == slash) ≡ false) c

abbrev pub IsName : Name → Type 0
IsName c = (is_empty c ≡ false) × HasNoSlash c

-- The path with the components.
pub join : Name → List Name → FilePath
join c [] = c
join c (d ∷ ds) = c ++ slash ∷ join d ds

split_once_last : (c : Name) → HasNoSlash c → split_once c ≡ none
unfolding split_once
split_once_last [] h = refl
split_once_last (b ∷ bs) h = rw (h.0, split_once_last bs h.1) refl

split_once_more :
    (c : Name) (rest : FilePath) → HasNoSlash c → split_once (c ++ slash ∷ rest) ≡ some (c, rest)
unfolding split_once
split_once_more [] rest h = refl
split_once_more (b ∷ bs) rest h = rw (h.0, split_once_more bs rest h.1) refl

pub split-join_last : (c : Name) → HasNoSlash c → split (join c []) ≡ (c, [])
unfolding split join
split-join_last c h = rw (split, split_once_last c h) refl

pub split-join_more :
    (c d : Name) (ds : List Name) → HasNoSlash c → split (join c (d ∷ ds)) ≡ (c, join d ds)
unfolding split join
split-join_more c d ds h = rw (split, split_once_more c (join d ds) h) refl

pub join_nonempty : (c : Name) (ds : List Name) → is_empty c ≡ false → is_empty (join c ds) ≡ false
unfolding join
join_nonempty [] ds h = absurd cc
join_nonempty (b ∷ bs) [] h = refl
join_nonempty (b ∷ bs) (d ∷ ds) h = refl

pub split_empty : split [] ≡ ([], [])
unfolding split split_once
split_empty = refl

pub split_once-join_last : (c : Name) → HasNoSlash c → split_once (join c []) ≡ none
unfolding join
split_once-join_last c h = split_once_last c h

pub split_once-join_more :
    (c d : Name) (ds : List Name)
    → HasNoSlash c
    → split_once (join c (d ∷ ds)) ≡ some (c, join d ds)
unfolding join
split_once-join_more c d ds h = split_once_more c (join d ds) h
