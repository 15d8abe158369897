-- ===== src/Futex/Lot.antt =====
-- The invariant of the parking lot: src/synch/futex.rs.
use mathlib.Core.Path.{subst}
use hermit_kernel.Base.{
  ℕ, ◌<◌, ◌≡◌, ◌≢◌, ◌⊎◌, refl, sym, ap, ◌∙◌, inl, inr, false, Option, none, some, List, [], arith,
}
use hermit_kernel.Base.Tests.{◌==◌, ==_refl, Bool-cases}
use hermit_kernel.Task.Types.{TaskHandle}
use hermit_kernel.Task.Levels.{is_empty as no_entry}
use hermit_kernel.Task.HandleQueue.{TaskHandlePriorityQueue}
use hermit_kernel.Task.HandleQueue.Pool.{BitmapPool, max_bitmap_pool}
use hermit_kernel.Task.HandleQueue.Repr.{IsPool, IsAllocated, IsUsable, KeepsOthers, waiting}
use hermit_kernel.Task.HandleQueue.Empty.{new-IsFresh}
use hermit_kernel.Futex.{Futexes, with_entry, or_default}

-- Every queue in the lot has a bitmap of its own, and in every one a task waits.
pub record IsLot (st : Futexes) : Type 0 where
  pub is_pool : IsPool st.pool
  pub allocated :
      (a : ℕ) (q : TaskHandlePriorityQueue) → st.parking_lot a ≡ some q → IsAllocated st.pool q
  pub nonempty :
      (a : ℕ) (q : TaskHandlePriorityQueue)
      → st.parking_lot a ≡ some q
      → no_entry (waiting q) ≡ false
  pub apart :
      (a b : ℕ) (q r : TaskHandlePriorityQueue)
      → a ≢ b
      → st.parking_lot a ≡ some q
      → st.parking_lot b ≡ some r
      → q.prio_bitmap_id ≢ r.prio_bitmap_id

abbrev pub waiting_in : Option TaskHandlePriorityQueue → List TaskHandle
waiting_in none = []
waiting_in (some q) = waiting q

-- The tasks that wait at an address, in the order in which they are woken.
abbrev pub waiting_at : Futexes → ℕ → List TaskHandle
waiting_at st a = waiting_in (st.parking_lot a)

-- What is put into an entry.
abbrev pub Holds : BitmapPool → ℕ → Option TaskHandlePriorityQueue → Type 0
Holds p id none = Unit
Holds p id (some q) = IsAllocated p q × (q.prio_bitmap_id ≡ id) × (no_entry (waiting q) ≡ false)

pub own_entry :
    (st : Futexes) (a : ℕ) (p : BitmapPool) (o : Option TaskHandlePriorityQueue)
    → (with_entry st a p o).parking_lot a ≡ o
own_entry st a p o = rw (==_refl a) refl

pub other_entry :
    (st : Futexes) (a b : ℕ) (p : BitmapPool) (o : Option TaskHandlePriorityQueue)
    → b ≢ a
    → (with_entry st a p o).parking_lot b ≡ st.parking_lot b
other_entry st a b p o n = ground (arith, n)

entry_cases :
    (st : Futexes) (a b : ℕ) (p : BitmapPool) (o : Option TaskHandlePriorityQueue)
    (r : TaskHandlePriorityQueue)
    → (with_entry st a p o).parking_lot b ≡ some r
    → ((b ≡ a) × (o ≡ some r)) ⊎ ((b ≢ a) × (st.parking_lot b ≡ some r))
entry_cases st a b p o r e = elim (Bool-cases (b == a)) [
  | inl h ↦
      let same : b ≡ a = ground arith in
      inl (same, sym (own_entry st a p o) ∙ ap (with_entry st a p o).parking_lot (sym same) ∙ e)
  | inr h ↦ let other : b ≢ a = ground arith in inr (other, sym (other_entry st a b p o other) ∙ e)
]

-- No other queue in the lot has the bitmap of this one.
abbrev pub IsApart : Futexes → ℕ → TaskHandlePriorityQueue → Type 0
IsApart st a q =
    (b : ℕ) (r : TaskHandlePriorityQueue)
    → b ≢ a
    → st.parking_lot b ≡ some r
    → r.prio_bitmap_id ≢ q.prio_bitmap_id

module _ (st : Futexes) (a : ℕ) (q : TaskHandlePriorityQueue) (p : BitmapPool) (id : ℕ)
    (l : IsLot st) (s : IsApart st a q) (v : IsPool p) (k : KeepsOthers st.pool q p id) where
  others_kept :
      (b : ℕ) (r : TaskHandlePriorityQueue)
      → b ≢ a
      → st.parking_lot b ≡ some r
      → IsAllocated p r × (r.prio_bitmap_id ≢ id)
  others_kept b r n e = k r (l.allocated b r e) (s b r n e)

  pub changed-IsLot :
      (o : Option TaskHandlePriorityQueue) → Holds p id o → IsLot (with_entry st a p o)
  changed-IsLot o h = record {
    is_pool = v;
    allocated = λ b r e. elim (entry_cases st a b p o r e) [
      | inl (same, f) ↦ (subst (Holds p id) f h).0
      | inr (n, f) ↦ (others_kept b r n f).0
    ];
    nonempty = λ b r e. elim (entry_cases st a b p o r e) [
      | inl (same, f) ↦ (subst (Holds p id) f h).2
      | inr (n, f) ↦ l.nonempty b r f
    ];
    apart = λ b c r t d e f. elim (entry_cases st a b p o r e) [
      | inl (same, g) ↦ elim (entry_cases st a c p o t f) [
        | inl (same', g') ↦ absurd (d (same ∙ sym same'))
        | inr (n, g') ↦ λ z. (others_kept c t n g').1 (sym z ∙ (subst (Holds p id) g h).1)
      ]
      | inr (n, g) ↦ elim (entry_cases st a c p o t f) [
        | inl (same', g') ↦ λ z. (others_kept b r n g).1 (z ∙ (subst (Holds p id) g' h).1)
        | inr (n', g') ↦ l.apart b c r t d g g'
      ]
    ];
  }

-- There is a bitmap for the queue of an address.
abbrev pub HasRoom : BitmapPool → Option TaskHandlePriorityQueue → Type 0
HasRoom p none = p.next < max_bitmap_pool
HasRoom p (some q) = Unit

pub entry-IsApart :
    (st : Futexes) (a : ℕ) (q : TaskHandlePriorityQueue)
    → IsLot st
    → st.parking_lot a ≡ some q
    → IsApart st a q
entry-IsApart st a q l e b r n f = l.apart b a r q n f e

-- The queue that a task joins at an address.
pub joined :
    (st : Futexes) (a : ℕ) (o : Option TaskHandlePriorityQueue)
    → IsLot st
    → st.parking_lot a ≡ o
    → HasRoom st.pool o
    → IsUsable st.pool (or_default o) × IsApart st a (or_default o)
joined st a none l e room =
    let fresh = new-IsFresh st.pool room in
    (inr fresh, λ b r n f z. absurd (omega (arith, (l.allocated b r f).id_pos, z, fresh.no_id)))
joined st a (some q) l e room = (inl (l.allocated a q e), entry-IsApart st a q l e)
