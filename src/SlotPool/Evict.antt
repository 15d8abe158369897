-- ===== src/SlotPool/Evict.antt =====
-- Taking a slot away from a task: src/arch/aarch64/kernel/slot_pool.rs, evict_victim.
use hermit_kernel.Base.{
  ℕ, zero, suc, ◌+◌, ◌*◌, ◌<◌, ◌≡◌, refl, ap, ◌∙◌, Bool, true, false, ◌&&◌, Option, none, some,
  List, [], ◌∷◌, arith,
}
use hermit_kernel.Base.Tests.{◌==◌, ==_refl, if◌then◌else◌}
use hermit_kernel.Base.Lists.{length, set, get_elem?, length-set}
use hermit_kernel.Base.Int.{ℤ, negsuc}
use hermit_kernel.Task.Types.{Task, FrameLocation}
use hermit_kernel.SlotPool.{
  Slots, is_free, is_in_slot, is_evicted, is_some, release, owners_for_core, copy_frame, frame_base,
  in_slot_of, dispatch_acquire_slot, evict_victim, slots_per_core,
}
use hermit_kernel.SlotPool.Frames.{copy_same}
use hermit_kernel.SlotPool.Acquire.{later, first_free, IsElsewhere, dispatch_lem}

none_parts :
    (b : Bool) (o : Option ℕ) → (if b then some 0 else later o) ≡ none → (b ≡ false) × (o ≡ none)
none_parts true o e = absurd cc
none_parts false none e = (refl, refl)
none_parts false (some i) e = absurd cc

-- The slot that is given back to a pool without a free one is its first free one.
pub first_free-release :
    (os : List ℤ) (i : ℕ)
    → first_free os ≡ none
    → i < length os
    → first_free (release i os) ≡ some i
first_free-release [] i e l = absurd (omega arith)
first_free-release (o ∷ os) zero e l = refl
first_free-release (o ∷ os) (suc i) e l =
    let (busy, rest) = none_parts (is_free o) (first_free os) e in
    rw (busy, first_free-release os i rest (omega arith)) refl

pub get_elem?-set :
    (xss : List (List ℤ)) (i : ℕ) (xs ys : List ℤ)
    → get_elem? xss i ≡ some xs
    → get_elem? (set xss i ys) i ≡ some ys
get_elem?-set [] i xs ys e = absurd cc
get_elem?-set (z ∷ zs) zero xs ys e = refl
get_elem?-set (z ∷ zs) (suc i) xs ys e = get_elem?-set zs i xs ys e

abbrev pub evicted_of : Task → Task
evicted_of victim = record victim {
  frame_location = FrameLocation.evicted;
  slot = none;
  wake_pending = false;
}

abbrev pub after_eviction : Slots → ℕ → ℕ → List ℤ → Slots
after_eviction st core i os = record st { owners = set st.owners core (release i os) }

-- The slots after a frame was copied to where the saved stack pointer points.
abbrev pub emptied : ℕ → ℕ → ℕ → Slots → List ℤ → Task → Slots
emptied base core i st os victim = record {
  owners = set st.owners core (release i os);
  memory = copy_frame (frame_base base core i) victim.last_stack_pointer st.memory;
}

pub evict_any :
    (base core i : ℕ) (st : Slots) (os : List ℤ) (victim : Task)
    → owners_for_core st core ≡ some os
    → is_in_slot victim.frame_location ≡ true
    → is_some victim.slot ≡ true
    → evict_victim base core st victim i
      ≡ some (victim.wake_pending, (emptied base core i st os victim, evicted_of victim))
unfolding evict_victim
evict_any base core i st os victim e here own = rw (here, own, e) refl

-- A task whose saved stack pointer is the frame in its slot keeps it there: the eviction copies the
-- frame onto itself, and gives back the slot.
pub evict_lem :
    (base core i : ℕ) (st : Slots) (os : List ℤ) (victim : Task)
    → owners_for_core st core ≡ some os
    → is_in_slot victim.frame_location ≡ true
    → is_some victim.slot ≡ true
    → victim.last_stack_pointer ≡ frame_base base core i
    → evict_victim base core st victim i
      ≡ some (victim.wake_pending, (after_eviction st core i os, evicted_of victim))
unfolding evict_victim
evict_lem base core i st os victim e here own p =
    rw (here, own, e, p, copy_same (frame_base base core i) st.memory) refl

this_slot : (core i a b : ℕ) → (if core == core && i == i then a else b) ≡ a
this_slot core i a b = rw (==_refl core, ==_refl i) refl

-- If all slots of a core are taken, the eviction of a task whose saved stack pointer is the frame
-- in its slot, as a dispatch leaves it, loses this frame: the next task that is dispatched gets
-- the slot, and its own frame then stands where the evicted task's is still looked for.
pub evicted_frame_lost :
    (base core i k : ℕ) (st : Slots) (os : List ℤ) (victim task : Task)
    → owners_for_core st core ≡ some os
    → length os ≡ slots_per_core
    → first_free os ≡ none
    → core < 4
    → i < slots_per_core
    → k < 36
    → is_in_slot victim.frame_location ≡ true
    → is_some victim.slot ≡ true
    → victim.last_stack_pointer ≡ frame_base base core i
    → IsElsewhere base task.last_stack_pointer
    → (st₁ : Slots) × (st₂ : Slots) × (victim' : Task) × (evict_victim base core st victim i
        ≡ some (victim.wake_pending, (st₁, victim')))
      × (dispatch_acquire_slot base core st₁ task ≡ some (true, (st₂, in_slot_of base core i task)))
      × (is_evicted victim'.frame_location ≡ true)
      × (st₂.memory (victim'.last_stack_pointer + 8 * k)
          ≡ st.memory (task.last_stack_pointer + 8 * k))
evicted_frame_lost base core i k st os victim task e size full few small word here own p elsewhere =
    let st₁ = after_eviction st core i os in
    let again = get_elem?-set st.owners core os (release i os) e in
    let free = first_free-release os i full (omega (arith, size)) in
    let (st₂, d, _, w, _) = rw free at (
      dispatch_lem base core st₁ (release i os) task core i task.last_stack_pointer k
        (length-set os i (negsuc 0) ∙ size) few small word elsewhere elsewhere again) in
    (
      st₁,
      st₂,
      evicted_of victim,
      evict_lem base core i st os victim e here own p,
      d,
      refl,
      ap (λ a. st₂.memory (a + 8 * k)) p
          ∙ w
          ∙ this_slot core i (st.memory (task.last_stack_pointer + 8 * k))
              (st.memory (frame_base base core i + 8 * k)),
    )
