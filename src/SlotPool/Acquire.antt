-- ===== src/SlotPool/Acquire.antt =====
-- Taking a slot: src/arch/aarch64/kernel/slot_pool.rs, acquire and dispatch_acquire_slot.
use mathlib.Core.Path.{subst}
use hermit_kernel.Base.{
  ℕ, zero, suc, ◌+◌, ◌-◌, ◌*◌, ◌^◌, ◌<◌, ◌≤◌, ◌≡◌, ◌≢◌, ◌⊎◌, refl, ap, ◌∙◌, inl, inr, Bool, true,
  false, ◌&&◌, Option, none, some, List, [], ◌∷◌, arith,
}
use hermit_kernel.Base.Tests.{◌==◌, if◌then◌else◌, Bool-cases}
use hermit_kernel.Base.Lists.{length, set}
use hermit_kernel.Base.Int.{ℤ, pos, negsuc}
use hermit_kernel.Task.Types.{Task}
use hermit_kernel.SlotPool.{
  Slots, is_free, acquire_from, acquire, set_owner, owners_for_core, Memory, copy_frame, frame_base,
  in_slot_of, fill, dispatch_acquire_slot, resume_from_evicted, is_evicted, slots_per_core,
  state_size, slot_stride,
}
use hermit_kernel.SlotPool.Frames.{AreApart, copy_outside, copy_word, slots_apart}

abbrev pub later : Option ℕ → Option ℕ
later none = none
later (some i) = some (suc i)

-- The first free slot, if there is one.
abbrev pub first_free : List ℤ → Option ℕ
first_free [] = none
first_free (owner ∷ owners) = if is_free owner then some 0 else later (first_free owners)

abbrev claimed : ℕ → List ℤ → Option ℕ → ℤ × List ℤ
claimed i owners none = (negsuc 0, owners)
claimed i owners (some k) = (pos (i + k), set owners k (pos (2 ^ 31 - 1)))

claimed_later :
    (i : ℕ) (owner : ℤ) (owners : List ℤ) (o : Option ℕ)
    → ((claimed (i + 1) owners o).0, owner ∷ (claimed (i + 1) owners o).1)
      ≡ claimed i (owner ∷ owners) (later o)
claimed_later i owner owners none = refl
claimed_later i owner owners (some k) =
    let e : i + 1 + k ≡ i + suc k = omega arith in
    ap (λ z. (pos z, owner ∷ set owners k (pos (2 ^ 31 - 1)))) e

acquire_from_lem :
    (i : ℕ) (owners : List ℤ) → acquire_from i owners ≡ claimed i owners (first_free owners)
unfolding acquire_from
acquire_from_lem i [] = refl
acquire_from_lem i (owner ∷ owners) = elim (Bool-cases (is_free owner)) [
  | inl e ↦ let z : i ≡ i + 0 = omega arith in rw e (ap (λ k. (pos k, pos (2 ^ 31 - 1) ∷ owners)) z)
  | inr e ↦
      rw (e, acquire_from_lem (i + 1) owners) (claimed_later i owner owners (first_free owners))
]

abbrev pub found : List ℤ → Option ℕ → ℤ × List ℤ
found owners none = (negsuc 0, owners)
found owners (some i) = (pos i, set owners i (pos (2 ^ 31 - 1)))

claimed-found : (owners : List ℤ) (o : Option ℕ) → claimed 0 owners o ≡ found owners o
claimed-found owners none = refl
claimed-found owners (some i) =
    let z : 0 + i ≡ i = omega arith in ap (λ k. (pos k, set owners i (pos (2 ^ 31 - 1)))) z

pub acquire_lem : (owners : List ℤ) → acquire owners ≡ found owners (first_free owners)
unfolding acquire
acquire_lem owners = acquire_from_lem 0 owners ∙ claimed-found owners (first_free owners)

abbrev IsBelow : ℕ → Option ℕ → Type 0
IsBelow n none = Unit
IsBelow n (some i) = i < n

later-IsBelow : (n : ℕ) (o : Option ℕ) → IsBelow n o → IsBelow (suc n) (later o)
later-IsBelow n none h = tt
later-IsBelow n (some i) h = omega arith

first_free-IsBelow : (owners : List ℤ) → IsBelow (length owners) (first_free owners)
first_free-IsBelow [] = tt
first_free-IsBelow (owner ∷ owners) = elim (Bool-cases (is_free owner)) [
  | inl f ↦ rw f (omega arith)
  | inr f ↦ rw f (later-IsBelow (length owners) (first_free owners) (first_free-IsBelow owners))
]

set_twice : (xs : List ℤ) (i : ℕ) (a b : ℤ) → set (set xs i a) i b ≡ set xs i b
set_twice [] i a b = refl
set_twice (x ∷ xs) zero a b = refl
set_twice (x ∷ xs) (suc i) a b = ap (◌∷◌ x) (set_twice xs i a b)

-- A frame outside the slots.
abbrev pub IsElsewhere : ℕ → ℕ → Type 0
IsElsewhere base frame = (frame + state_size ≤ base) ⊎ (base + 12 * slot_stride ≤ frame)

elsewhere-AreApart :
    (base core i frame : ℕ)
    → core < 4
    → i < slots_per_core
    → IsElsewhere base frame
    → AreApart frame (frame_base base core i)
elsewhere-AreApart base core i frame l m (inl h) = inl (omega arith)
elsewhere-AreApart base core i frame l m (inr h) = inr (omega arith)

apart_word : (a b k : ℕ) → AreApart a b → k < 36 → (b + 8 * k < a) ⊎ (a + state_size ≤ b + 8 * k)
apart_word a b k (inl h) l = inr (omega arith)
apart_word a b k (inr h) l = inl (omega arith)

-- Taking slot `i` for a task, as the words of the frame of slot `j` of core `core'` and of a frame
-- elsewhere show it.
abbrev pub Takes :
    ℕ
    → ℕ
    → Slots
    → List ℤ
    → Task
    → ℕ
    → ℕ
    → ℕ
    → ℕ
    → Option (Bool × (Slots × Task))
    → Option ℕ
    → Type 0
Takes base core st os task core' j frame k out none = out ≡ some (false, (st, task))
Takes base core st os task core' j frame k out (some i) =
    (st' : Slots) × (out ≡ some (true, (st', in_slot_of base core i task)))
    × (st'.owners ≡ set st.owners core (set os i (pos task.id)))
    × (st'.memory (frame_base base core' j + 8 * k) ≡ (
        if core == core' && i == j
        then st.memory (task.last_stack_pointer + 8 * k)
        else st.memory (frame_base base core' j + 8 * k)))
    × (st'.memory (frame + 8 * k) ≡ st.memory (frame + 8 * k))

module _ (base core : ℕ) (st : Slots) (os : List ℤ) (task : Task) (core' j frame k : ℕ)
    (size : length os ≡ slots_per_core) (few : core < 4) (small : j < slots_per_core)
    (word : k < 36) (own : IsElsewhere base task.last_stack_pointer)
    (apart : IsElsewhere base frame) where
  abbrev memory_after : ℕ → Memory
  memory_after i = copy_frame task.last_stack_pointer (frame_base base core i) st.memory

  word_after :
      (i : ℕ)
      → i < slots_per_core
      → memory_after i (frame_base base core' j + 8 * k) ≡ (
          if core == core' && i == j
          then st.memory (task.last_stack_pointer + 8 * k)
          else st.memory (frame_base base core' j + 8 * k))
  word_after i l = elim (Bool-cases (core == core' && i == j)) [
    | inl e ↦
        let same_core : core' ≡ core = ground arith in
        let same_slot : j ≡ i = ground arith in
        rw (e, same_core, same_slot)
          (copy_word task.last_stack_pointer (frame_base base core i) st.memory k
            (elsewhere-AreApart base core i task.last_stack_pointer few l own) word)
    | inr e ↦ rw e (
        copy_outside task.last_stack_pointer (frame_base base core i) st.memory
          (frame_base base core' j + 8 * k)
          (apart_word (frame_base base core i) (frame_base base core' j) k
            (slots_apart base core i core' j l small (other_slot i e)) word))
  ]
    where
      other_slot : (i : ℕ) → (core == core' && i == j) ≡ false → (core ≢ core') ⊎ (i ≢ j)
      other_slot i e = elim (Bool-cases (core == core')) [
        | inl f ↦ let n : i ≢ j = ground arith in inr n
        | inr f ↦ let n : core ≢ core' = ground arith in inl n
      ]

  frame_after :
      (i : ℕ) → i < slots_per_core → memory_after i (frame + 8 * k) ≡ st.memory (frame + 8 * k)
  frame_after i l =
      copy_outside task.last_stack_pointer (frame_base base core i) st.memory (frame + 8 * k) (
        apart_word (frame_base base core i) frame k
          (swapped (elsewhere-AreApart base core i frame few l apart)) word)
    where
      swapped : AreApart frame (frame_base base core i) → AreApart (frame_base base core i) frame
      swapped (inl h) = inr h
      swapped (inr h) = inl h

  taken :
      (o : Option ℕ)
      → first_free os ≡ o
      → Takes base core st os task core' j frame k (some (fill base core st task (found os o))) o
  taken none e = refl
  taken (some i) e =
      let l = subst (IsBelow (length os)) e (first_free-IsBelow os) in
      let in_range : i < slots_per_core = omega (arith, l, size) in
      (
        record {
          owners = set st.owners core (set_owner i (pos task.id) (set os i (pos (2 ^ 31 - 1))));
          memory = memory_after i;
        },
        refl,
        ap (set st.owners core) (set_twice os i (pos (2 ^ 31 - 1)) (pos task.id)),
        word_after i in_range,
        frame_after i in_range,
      )

  -- Dispatching a task whose frame lies outside the slots takes the first free slot of the core,
  -- and returns false without a change if there is none. The task then owns the slot and has its
  -- frame there, word by word the same; the frames in all other slots of any core, and those
  -- outside the slots, keep their words, and the other slots their owners.
  pub dispatch_lem :
      owners_for_core st core ≡ some os
      → Takes base core st os task core' j frame k
          (dispatch_acquire_slot base core st task)
          (first_free os)
  unfolding dispatch_acquire_slot
  dispatch_lem e = rw (e, acquire_lem os) (taken (first_free os) refl)

  -- Resuming an evicted task does the same.
  pub resume_lem :
      owners_for_core st core ≡ some os
      → is_evicted task.frame_location ≡ true
      → Takes base core st os task core' j frame k
          (resume_from_evicted base core st task)
          (first_free os)
  unfolding resume_from_evicted
  resume_lem e v = rw (v, e, acquire_lem os) (taken (first_free os) refl)
