-- ===== src/File/Bytes.antt =====
-- Single bytes of the lists that reads and writes put together.
use hermit_kernel.Base.{ℕ, zero, suc, ◌+◌, ◌-◌, ◌≤◌, ◌≡◌, ap, ◌∙◌, min, List, [], ◌∷◌, ◌++◌, arith}
use hermit_kernel.Base.Tests.{ltb, leb, if◌then◌else◌}
use hermit_kernel.Base.Lists.{
  length, take, drop, replicate, get_or, length-append, length-take, length-drop, length-replicate,
  get_or-replicate, get_or_out,
}
use hermit_kernel.File.{resize, copy_into}

pub get_or-append :
    (xs ys : List ℕ) (j : ℕ)
    → get_or (xs ++ ys) j 0
      ≡ (if ltb j (length xs) then get_or xs j 0 else get_or ys (j - length xs) 0)
get_or-append [] ys j = ground arith
get_or-append (x ∷ xs) ys zero = ground arith
get_or-append (x ∷ xs) ys (suc j) = get_or-append xs ys j ∙ ground arith

pub get_or-take :
    (n : ℕ) (xs : List ℕ) (j : ℕ) → get_or (take n xs) j 0 ≡ (if ltb j n then get_or xs j 0 else 0)
get_or-take zero xs j = ground arith
get_or-take (suc n) [] j = ground arith
get_or-take (suc n) (x ∷ xs) zero = ground arith
get_or-take (suc n) (x ∷ xs) (suc j) = get_or-take n xs j ∙ ground arith

pub get_or-drop : (n : ℕ) (xs : List ℕ) (j : ℕ) → get_or (drop n xs) j 0 ≡ get_or xs (n + j) 0
get_or-drop zero xs j = ap (λ k. get_or xs k 0) (omega arith)
get_or-drop (suc n) [] j = ground arith
get_or-drop (suc n) (x ∷ xs) j =
    let e : suc (n + j) ≡ suc n + j = omega arith in
    get_or-drop n xs j ∙ ap (λ k. get_or (x ∷ xs) k 0) e

pub length-resize : (xs : List ℕ) (n : ℕ) → length (resize xs n) ≡ n
length-resize xs n =
    rw
      (
        length-append (take n xs) (replicate (n - length xs) 0),
        length-take n xs,
        length-replicate {A = ℕ} (n - length xs) 0,
      )
      (omega arith)

-- A resized file has the old bytes as far as it goes, and zeros after them.
pub get_or-resize :
    (xs : List ℕ) (n j : ℕ) → get_or (resize xs n) j 0 ≡ (if ltb j n then get_or xs j 0 else 0)
get_or-resize xs n j =
    let zeros = get_or-replicate {A = ℕ} (n - length xs) (j - min n (length xs)) 0 in
    let out = get_or_out xs j 0 in
    rw
      (
        get_or-append (take n xs) (replicate (n - length xs) 0) j,
        length-take n xs,
        get_or-take n xs j,
        zeros,
      )
      (ground arith)

pub length-copy_into :
    (xs : List ℕ) (i : ℕ) (ys : List ℕ)
    → i + length ys ≤ length xs
    → length (copy_into xs i ys) ≡ length xs
length-copy_into xs i ys h =
    rw
      (
        length-append (take i xs) (ys ++ drop (i + length ys) xs),
        length-take i xs,
        length-append ys (drop (i + length ys) xs),
        length-drop (i + length ys) xs,
      )
      (omega arith)

pub get_or-copy_into :
    (xs : List ℕ) (i : ℕ) (ys : List ℕ) (j : ℕ)
    → i + length ys ≤ length xs
    → get_or (copy_into xs i ys) j 0 ≡ (
        if leb i j
        then if ltb j (i + length ys) then get_or ys (j - i) 0 else get_or xs j 0
        else get_or xs j 0)
get_or-copy_into xs i ys j h =
    let m : min i (length xs) ≡ i = omega arith in
    let back : i + length ys ≤ j
        → get_or xs (i + length ys + (j - i - length ys)) 0 ≡ get_or xs j 0 =
      λ k. ap (λ n. get_or xs n 0) (omega arith) in
    rw
      (
        get_or-append (take i xs) (ys ++ drop (i + length ys) xs) j,
        length-take i xs,
        m,
        get_or-take i xs j,
        get_or-append ys (drop (i + length ys) xs) (j - i),
        get_or-drop (i + length ys) xs (j - i - length ys),
      )
      (ground arith)
