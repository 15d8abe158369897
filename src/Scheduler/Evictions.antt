-- ===== src/Scheduler/Evictions.antt =====
-- The evictions of src/scheduler/mod.rs, ensure_slot.
use mathlib.Core.Path.{subst}
use hermit_kernel.Base.{
  ℕ, ◌<◌, ◌≡◌, ◌≢◌, refl, sym, ap, fun_ext, ◌∙◌, inl, inr, true, false, none, some, List, arith,
}
use hermit_kernel.Base.Tests.{◌==◌, ==_refl, Bool-cases}
use hermit_kernel.Base.Lists.{length, set, get_elem?, length-set}
use hermit_kernel.Base.Int.{ℤ, pos, negsuc}
use hermit_kernel.Blocked.{with_task}
use hermit_kernel.Blocked.Victim.{select_eviction_victim}
use hermit_kernel.SlotPool.{
  Slots, is_evicted, is_in_slot, is_some, release, owners_for_core, in_slot_of, slots_per_core,
}
use hermit_kernel.SlotPool.Acquire.{first_free, IsElsewhere, dispatch_lem}
use hermit_kernel.SlotPool.Evict.{first_free-release, get_elem?-set, evicted_of, emptied, evict_any}
use hermit_kernel.Scheduler.{
  PerCoreScheduler, task_at, with_slots, try_acquire, complete_wake, evict_and_retry, evict_loop,
  with_tasks, touched, needs_none, acquire_or_evict, ensure_slot,
}

-- A task that was given slot `i`, which another one lost.
abbrev pub Moved : ℕ → ℕ → ℕ → List ℤ → ℕ → ℕ → PerCoreScheduler → PerCoreScheduler → Type 0
Moved base core i os r v s s' =
    (task_at s' r ≡ in_slot_of base core i (task_at s r))
    × (is_evicted (task_at s' v).frame_location ≡ true)
    × (owners_for_core s'.slots core ≡ some (set (release i os) i (pos (task_at s r).id)))

module _ (base core i r v : ℕ) (s : PerCoreScheduler) (os : List ℤ)
    (e : owners_for_core s.slots core ≡ some os) (size : length os ≡ slots_per_core)
    (full : first_free os ≡ none) (few : core < 4) (small : i < slots_per_core)
    (here : is_in_slot (task_at s v).frame_location ≡ true) (own : (task_at s v).slot ≡ some i)
    (quiet : (task_at s v).wake_pending ≡ false) (apart : v ≢ r)
    (stack : IsElsewhere base (task_at s r).last_stack_pointer) where
  -- The slots after the eviction.
  abbrev left : PerCoreScheduler
  left = with_slots s (emptied base core i s.slots os (task_at s v)) v (evicted_of (task_at s v))

  task_left : task_at left r ≡ task_at s r
  task_left = let n : (r == v) ≡ false = ground (arith, apart) in rw n refl

  retried :
      (s' : PerCoreScheduler) × (evict_and_retry base core r v s ≡ some (true, s'))
      × Moved base core i os r v s s'
  unfolding evict_and_retry complete_wake try_acquire
  retried =
      let stack' = subst (λ t. IsElsewhere base t.last_stack_pointer) (sym task_left) stack in
      let again = get_elem?-set s.slots.owners core os (release i os) e in
      let free = first_free-release os i full (omega (arith, size)) in
      let (st₂, d, o, _, _) = rw free at (
        dispatch_lem base core left.slots (release i os) (task_at left r) core i
          (task_at left r).last_stack_pointer 0 (length-set os i (negsuc 0) ∙ size) few small
          (omega arith) stack' stack' again) in
      let evicts = evict_any base core i s.slots os (task_at s v) e here (ap is_some own) in
      (
        with_slots left st₂ r (in_slot_of base core i (task_at left r)),
        rw (own, evicts, quiet, d) refl,
        (
          own_task st₂,
          others_task st₂,
          ap (λ owners. get_elem? owners core) o
              ∙ get_elem?-set left.slots.owners core (release i os) _ again
              ∙ ap (λ t. some (set (release i os) i (pos t.id))) task_left,
        ),
      )
    where
      own_task :
          (st : Slots)
          → task_at (with_slots left st r (in_slot_of base core i (task_at left r))) r
            ≡ in_slot_of base core i (task_at s r)
      own_task st =
          (let same : (r == r) ≡ true = ==_refl r in rw same refl)
          ∙ ap (in_slot_of base core i) task_left

      others_task :
          (st : Slots)
          → is_evicted
              (task_at
                (with_slots left st r (in_slot_of base core i (task_at left r)))
                v).frame_location
            ≡ true
      others_task st =
          let other : (v == r) ≡ false = ground (arith, apart) in
          let same : (v == v) ≡ true = ==_refl v in rw (other, same) refl

  unchanged : with_slots s s.slots r (task_at s r) ≡ s
  unchanged = ap (with_tasks s) (fun_ext same_task)
    where
      same_task : (b : ℕ) → with_task s.blocked_tasks.tasks r (task_at s r) b ≡ task_at s b
      same_task b = elim (Bool-cases (b == r)) [
        | inl f ↦ let same : b ≡ r = ground arith in rw (f, same) refl
        | inr f ↦ rw f refl
      ]

  no_slot : try_acquire base core r s ≡ some (false, s)
  unfolding try_acquire
  no_slot =
      let none_free = rw full at (
        dispatch_lem base core s.slots os (task_at s r) core i (task_at s r).last_stack_pointer 0
          size few small (omega arith) stack stack e) in
      rw none_free (ap (λ z. some (false, z)) unchanged)

  evicts_once :
      (now : ℕ)
      → select_eviction_victim s.blocked_tasks (task_at s r).id now ≡ some (some v)
      → (s' : PerCoreScheduler) × (acquire_or_evict base core now r s ≡ some s')
        × Moved base core i os r v s s'
  unfolding acquire_or_evict evict_loop
  evicts_once now chosen = let (s', f, m) = retried in (s', rw (no_slot, chosen, f) refl, m)

-- If all slots of the core are taken and there is a victim, whose frame is in slot i and no wake of
-- which was put off, one eviction is enough: the task, which is neither in a slot nor evicted, and
-- whose frame lies outside the slots and is not one that stays in place, gets slot i and owns it, and
-- the victim is evicted.
pub ensure_slot_evicts :
    (base core i r v now : ℕ) (s : PerCoreScheduler) (os : List ℤ)
    → owners_for_core s.slots core ≡ some os
    → length os ≡ slots_per_core
    → first_free os ≡ none
    → core < 4
    → i < slots_per_core
    → is_in_slot (task_at (touched now r s) v).frame_location ≡ true
    → (task_at (touched now r s) v).slot ≡ some i
    → (task_at (touched now r s) v).wake_pending ≡ false
    → v ≢ r
    → IsElsewhere base (task_at (touched now r s) r).last_stack_pointer
    → needs_none (touched now r s) (task_at (touched now r s) r) ≡ false
    → is_evicted (task_at (touched now r s) r).frame_location ≡ false
    → select_eviction_victim (touched now r s).blocked_tasks (task_at (touched now r s) r).id now
      ≡ some (some v)
    → (s' : PerCoreScheduler) × (ensure_slot base core now r s ≡ some s')
      × Moved base core i os r v (touched now r s) s'
unfolding ensure_slot
ensure_slot_evicts base core i r v now s os e size full few small here own quiet apart stack needs
      ev chosen =
    let (s', f, m) =
      evicts_once base core i r v (touched now r s) os e size full few small here own quiet apart
        stack now chosen in
    (s', rw (needs, ev, f) refl, m)
