-- ===== src/File/Read.antt =====
-- What reads return, alone, in sequence and after a write.
use hermit_kernel.Base.{
  ℕ, zero, suc, ◌+◌, ◌-◌, ◌≤◌, ◌≡◌, refl, ap, sym, ◌∙◌, inl, inr, min, List, [], ◌∷◌, ◌++◌, arith,
}
use hermit_kernel.Base.Tests.{leb, Bool-cases}
use hermit_kernel.Base.Lists.{length, take, drop, length-drop, length-take}
use mathlib.Core.List.{append-nil}
use hermit_kernel.File.{
  Outcome, ok, err, panic, RomFileInner, Timespec, slice_len, filled, rom_read,
}

-- What was read into a buffer.
abbrev pub part_of : Outcome ℕ → List ℕ → List ℕ
part_of (ok n) buf = take n buf
part_of (err e) buf = []
part_of panic buf = []

-- What reads into the buffers return together, one after the other, at time `t`.
pub rom_reads : List (List ℕ) → Timespec → ℕ → RomFileInner → List ℕ
rom_reads [] t at f = []
rom_reads (buf ∷ bufs) t at f =
    let (r, (buf', (at', f'))) = rom_read buf t at f in part_of r buf' ++ rom_reads bufs t at' f'

abbrev pub total : List (List ℕ) → ℕ
total [] = 0
total (buf ∷ bufs) = length buf + total bufs

pub take-append : (n : ℕ) (xs ys : List ℕ) → n ≤ length xs → take n (xs ++ ys) ≡ take n xs
take-append zero xs ys h = refl
take-append (suc n) [] ys h = absurd (omega arith)
take-append (suc n) (x ∷ xs) ys h = ap (◌∷◌ x) (take-append n xs ys (omega arith))

pub take_all : (n : ℕ) (xs : List ℕ) → length xs ≤ n → take n xs ≡ xs
take_all zero [] h = refl
take_all zero (x ∷ xs) h = absurd (omega arith)
take_all (suc n) [] h = refl
take_all (suc n) (x ∷ xs) h = ap (◌∷◌ x) (take_all n xs (omega arith))

pub drop_all : (n : ℕ) (xs : List ℕ) → length xs ≤ n → drop n xs ≡ []
drop_all zero [] h = refl
drop_all zero (x ∷ xs) h = absurd (omega arith)
drop_all (suc n) [] h = refl
drop_all (suc n) (x ∷ xs) h = drop_all n xs (omega arith)

take_nil : (n : ℕ) → take {A = ℕ} n [] ≡ []
take_nil zero = refl
take_nil (suc n) = refl

drop_nil : (n : ℕ) → drop {A = ℕ} n [] ≡ []
drop_nil zero = refl
drop_nil (suc n) = refl

drop-drop : (n m : ℕ) (xs : List ℕ) → drop m (drop n xs) ≡ drop (n + m) xs
drop-drop zero m xs = let e : m ≡ 0 + m = omega arith in ap (λ k. drop k xs) e
drop-drop (suc n) m [] = drop_nil m ∙ sym (drop_nil (suc n + m))
drop-drop (suc n) m (x ∷ xs) =
    let e : suc (n + m) ≡ suc n + m = omega arith in drop-drop n m xs ∙ ap (λ k. drop k (x ∷ xs)) e

take_sum : (n m : ℕ) (xs : List ℕ) → take n xs ++ take m (drop n xs) ≡ take (n + m) xs
take_sum zero m xs = let e : m ≡ 0 + m = omega arith in ap (λ k. take k xs) e
take_sum (suc n) m [] = take_nil m ∙ sym (take_nil (suc n + m))
take_sum (suc n) m (x ∷ xs) =
    let e : suc (n + m) ≡ suc n + m = omega arith in
    ap (◌∷◌ x) (take_sum n m xs) ∙ ap (λ k. take k (x ∷ xs)) e

take_enough : (n m : ℕ) (xs : List ℕ) → n ≡ min (length xs) m → take n xs ≡ take m xs
take_enough n m xs h = elim (Bool-cases (leb m (length xs))) [
  | inl e ↦ let k : n ≡ m = ground arith in ap (λ i. take i xs) k
  | inr e ↦ take_all n xs (ground arith) ∙ sym (take_all m xs (ground arith))
]

-- What is read into a buffer is what the file has at the position.
pub part-filled :
    (xs : List ℕ) (at : ℕ) (buf : List ℕ)
    → take (slice_len xs at buf) (filled xs at buf) ≡ take (length buf) (drop at xs)
part-filled xs at buf =
    let d = drop at xs in
    let s = slice_len xs at buf in
    let n : length d ≡ length xs - at = length-drop at xs in
    let k : length (take s d) ≡ min s (length d) = length-take s d in
    take-append s (take s d) (drop s buf) (omega arith)
    ∙ take_all s (take s d) (omega arith)
    ∙ take_enough s (length buf) d (omega arith)

next_part :
    (xs : List ℕ) (at : ℕ) (buf : List ℕ) (m : ℕ)
    → take (length buf) (drop at xs) ++ take m (drop (at + slice_len xs at buf) xs)
      ≡ take (length buf + m) (drop at xs)
next_part xs at buf m = elim (Bool-cases (leb (length buf) (length xs - at))) [
  | inl e ↦
      let k : slice_len xs at buf ≡ length buf = ground arith in
      rw (k, sym (drop-drop at (length buf) xs)) (take_sum (length buf) m (drop at xs))
  | inr e ↦
      let n : length (drop at xs) ≡ length xs - at = length-drop at xs in
      rw
        (
          drop_all (at + slice_len xs at buf) xs (ground arith),
          take_all (length buf) (drop at xs) (ground arith),
          take_all (length buf + m) (drop at xs) (ground arith),
          take_nil m,
        )
        (append-nil (drop at xs))
]

-- Reads one after the other return the bytes of the file from the position on, in order and
-- without a gap, as many as there is room for in the buffers or left in the file.
pub rom_reads_lem :
    (bufs : List (List ℕ)) (t : Timespec) (at : ℕ) (f : RomFileInner)
    → rom_reads bufs t at f ≡ take (total bufs) (drop at f.content)
unfolding rom_reads rom_read
rom_reads_lem [] t at f = refl
rom_reads_lem (buf ∷ bufs) t at f = elim (Bool-cases (leb (length f.content) at)) [
  | inl e ↦
      let none_left : drop at f.content ≡ [] = drop_all at f.content (ground arith) in
      rw
        (
          e,
          rom_reads_lem bufs t at _,
          none_left,
          take_nil (total bufs),
          take_nil (length buf + total bufs),
        )
        refl
  | inr e ↦
      rw (e, part-filled f.content at buf, rom_reads_lem bufs t (at + slice_len f.content at buf) _)
        (next_part f.content at buf (total bufs))
]
