-- ===== src/SlotPool/Frames.antt =====
-- Copies of frames: src/arch/aarch64/kernel/slot_pool.rs.
use hermit_kernel.Base.{
  ℕ, zero, suc, ◌+◌, ◌*◌, ◌<◌, ◌≤◌, ◌≡◌, ◌≢◌, ◌⊎◌, refl, ap, ◌∙◌, fun_ext, inl, inr, arith,
}
use hermit_kernel.Base.Tests.{ltb, ltb→lt, Bool-cases}
use hermit_kernel.SlotPool.{
  state_size, slots_per_core, frame_base, Memory, store, copy_from, copy_frame,
}

store_other : (m : Memory) (a v x : ℕ) → x ≢ a → store m a v x ≡ m x
store_other m a v x n = ground (arith, n)

store_own : (m : Memory) (a v : ℕ) → store m a v a ≡ v
store_own m a v = ground arith

outside :
    (n w src dst : ℕ) (m : Memory) (x : ℕ)
    → (x < dst + 8 * w) ⊎ (dst + 8 * (w + n) ≤ x)
    → copy_from n w src dst m x ≡ m x
unfolding copy_from
outside zero w src dst m x h = refl
outside (suc n) w src dst m x (inl l) =
    outside n (w + 1) src dst _ x (inl (omega arith))
    ∙ store_other m (dst + 8 * w) (m (src + 8 * w)) x (omega arith)
outside (suc n) w src dst m x (inr l) =
    outside n (w + 1) src dst _ x (inr (omega arith))
    ∙ store_other m (dst + 8 * w) (m (src + 8 * w)) x (omega arith)

-- Two frames have no word in common.
abbrev pub AreApart : ℕ → ℕ → Type 0
AreApart a b = (a + state_size ≤ b) ⊎ (b + state_size ≤ a)

differ : (a b j k : ℕ) → AreApart a b → j < 36 → k < 36 → a + 8 * j ≢ b + 8 * k
differ a b j k (inl h) l m = omega arith
differ a b j k (inr h) l m = omega arith

copied :
    (n w src dst : ℕ) (m : Memory) (k : ℕ)
    → AreApart src dst
    → w + n ≤ 36
    → k < n
    → copy_from n w src dst m (dst + 8 * (w + k)) ≡ m (src + 8 * (w + k))
unfolding copy_from
copied zero w src dst m k d b l = absurd (omega arith)
copied (suc n) w src dst m zero d b l =
    let here : dst + 8 * (w + 0) ≡ dst + 8 * w = omega arith in
    let there : src + 8 * w ≡ src + 8 * (w + 0) = omega arith in
    outside n (w + 1) src dst _ (dst + 8 * (w + 0)) (inl (omega arith))
    ∙ ap (store m (dst + 8 * w) (m (src + 8 * w))) here
    ∙ store_own m (dst + 8 * w) (m (src + 8 * w))
    ∙ ap m there
copied (suc n) w src dst m (suc k) d b l =
    let here : dst + 8 * (w + suc k) ≡ dst + 8 * (w + 1 + k) = omega arith in
    let there : src + 8 * (w + 1 + k) ≡ src + 8 * (w + suc k) = omega arith in
    ap (copy_from n (w + 1) src dst (store m (dst + 8 * w) (m (src + 8 * w)))) here
    ∙ copied n (w + 1) src dst (store m (dst + 8 * w) (m (src + 8 * w))) k d (omega arith)
        (omega arith)
    ∙ store_other m (dst + 8 * w) (m (src + 8 * w)) (src + 8 * (w + 1 + k))
        (differ src dst (w + 1 + k) w d (omega arith) (omega arith))
    ∙ ap m there

pub copy_outside :
    (src dst : ℕ) (m : Memory) (x : ℕ)
    → (x < dst) ⊎ (dst + state_size ≤ x)
    → copy_frame src dst m x ≡ m x
unfolding copy_frame
copy_outside src dst m x (inl l) = outside 36 0 src dst m x (inl (omega arith))
copy_outside src dst m x (inr l) = outside 36 0 src dst m x (inr (omega arith))

pub copy_word :
    (src dst : ℕ) (m : Memory) (k : ℕ)
    → AreApart src dst
    → k < 36
    → copy_frame src dst m (dst + 8 * k) ≡ m (src + 8 * k)
unfolding copy_frame
copy_word src dst m k d l =
    let here : dst + 8 * k ≡ dst + 8 * (0 + k) = omega arith in
    let there : src + 8 * (0 + k) ≡ src + 8 * k = omega arith in
    ap (copy_from 36 0 src dst m) here ∙ copied 36 0 src dst m k d (omega arith) l ∙ ap m there

store_same : (m : Memory) (a : ℕ) → store m a (m a) ≡ m
store_same m a = fun_ext (λ x. ground arith)

-- Copying a frame to where it is changes nothing.
copy_self : (n w a : ℕ) (m : Memory) → copy_from n w a a m ≡ m
unfolding copy_from
copy_self zero w a m = refl
copy_self (suc n) w a m =
    ap (copy_from n (w + 1) a a) (store_same m (a + 8 * w)) ∙ copy_self n (w + 1) a m

pub copy_same : (a : ℕ) (m : Memory) → copy_frame a a m ≡ m
unfolding copy_frame
copy_same a m = copy_self 36 0 a m

-- The frames of two slots have no word in common.
pub slots_apart :
    (base core i core' j : ℕ)
    → i < slots_per_core
    → j < slots_per_core
    → (core ≢ core') ⊎ (i ≢ j)
    → AreApart (frame_base base core i) (frame_base base core' j)
slots_apart base core i core' j l m n = elim (Bool-cases (ltb (core * 3 + i) (core' * 3 + j))) [
  | inl e ↦
      let less : core * 3 + i < core' * 3 + j = ltb→lt (core * 3 + i) (core' * 3 + j) e in
      inl (omega arith)
  | inr e ↦ let more : core' * 3 + j ≤ core * 3 + i = ground arith in inr (below n more)
]
  where
    below :
        (core ≢ core') ⊎ (i ≢ j)
        → core' * 3 + j ≤ core * 3 + i
        → frame_base base core' j + state_size ≤ frame_base base core i
    below (inl n') h = omega arith
    below (inr n') h = omega arith
