-- ===== src/Continuation/Pool/Alloc.antt =====
-- Records from the pool: src/arch/aarch64/kernel/continuations.rs, alloc_cont.
use hermit_kernel.Base.{
  ℕ, ◌+◌, ◌-◌, ◌≤◌, ◌<◌, ◌≡◌, ◌≢◌, ◌⊎◌, inl, inr, refl, ◌↔◌, none, some, arith,
}
use hermit_kernel.Base.Tests.{ltb, Bool-cases, lt→ltb, ltb→lt, not-ltb}
use hermit_kernel.Continuation.{Conts, c_free, max_continuations, state_of}
use hermit_kernel.Continuation.Pool.{alloc_cont, free_cont}
use hermit_kernel.Continuation.Pool.Bounds.{IsPool, IsLive, free_cont-Freed, room}

-- Whether the pool has a record to hand out.
abbrev pub HasRoom : Conts → Type 0
HasRoom st = (0 < st.cont_free_top) ⊎ (st.cont_next < max_continuations)

pub alloc_cont-kept :
    (st : Conts) (i : ℕ) (st' : Conts)
    → alloc_cont st ≡ some (i, st')
    → (st'.current_cont ≡ st.current_cont) × (st'.cpu ≡ st.cpu)
unfolding alloc_cont
alloc_cont-kept st i st' e = ground arith

pub alloc_cont-states :
    (st : Conts) (i : ℕ) (st' : Conts)
    → alloc_cont st ≡ some (i, st')
    → (st'.cont_pool ≡ st.cont_pool)
      × (st.cont_next ≤ st'.cont_next)
      × (st'.cont_pending ≡ st.cont_pending)
unfolding alloc_cont
alloc_cont-states st i st' e = ground arith

-- A record was handed out: it is free, was handed out at some time, and is not in the free list.
pub record IsTaken (st : Conts) (i : ℕ) : Type 0 where
  pub before : i < st.cont_next
  pub free : state_of st i ≡ c_free
  pub unlisted : (k : ℕ) → k < st.cont_free_top → st.cont_free_buf k ≢ i

popped :
    (st : Conts)
    → 0 < st.cont_free_top
    → IsPool st
    → (alloc_cont st
        ≡ some (
          st.cont_free_buf (st.cont_free_top - 1),
          record st { cont_free_top = st.cont_free_top - 1 },
        ))
unfolding alloc_cont
popped st h ok = rw (lt→ltb _ _ h, ok.unused (st.cont_free_top - 1) (omega arith)) refl

grown :
    (st : Conts)
    → st.cont_free_top ≡ 0
    → st.cont_next < max_continuations
    → IsPool st
    → (alloc_cont st ≡ some (st.cont_next, record st { cont_next = st.cont_next + 1 }))
unfolding alloc_cont
grown st e h ok =
    rw (not-ltb 0 st.cont_free_top (omega arith), lt→ltb _ _ h, ok.fresh st.cont_next (omega arith))
      refl

-- While the pool has room, `alloc_cont` does not panic: it hands out a record below the maximum
-- that is free and is in use nowhere else, and keeps the pool well formed.
pub alloc_cont-IsPool :
    (st : Conts)
    → IsPool st
    → HasRoom st
    → (i : ℕ) × (st' : Conts) × (alloc_cont st ≡ some (i, st'))
      × (i < max_continuations)
      × IsTaken st' i
      × IsPool st'
alloc_cont-IsPool st ok h = elim (Bool-cases (ltb 0 st.cont_free_top)) [
  | inl e ↦
      let l = ltb→lt 0 st.cont_free_top e in
      (
        st.cont_free_buf (st.cont_free_top - 1),
        record st { cont_free_top = st.cont_free_top - 1 },
        popped st l ok,
        omega (arith, ok.below (st.cont_free_top - 1) (omega arith), ok.next),
        record {
          before = ok.below (st.cont_free_top - 1) (omega arith);
          free = ok.unused (st.cont_free_top - 1) (omega arith);
          unlisted = λ k hk q. ground (arith, ok.differ k (st.cont_free_top - 1));
        },
        record {
          next = ok.next;
          top = omega (arith, ok.top);
          below = λ k hk. ok.below k (omega arith);
          unused = λ k hk. ok.unused k (omega arith);
          differ = λ j k hj hk. ok.differ j k (omega arith) (omega arith);
          fresh = ok.fresh;
        },
      )
  | inr e ↦ (
    st.cont_next,
    record st { cont_next = st.cont_next + 1 },
    grown st (ground arith) (ground arith) ok,
    ground arith,
    record {
      before = omega arith;
      free = ok.fresh st.cont_next (omega arith);
      unlisted = λ k hk q. ground arith;
    },
    record {
      next = ground arith;
      top = omega (arith, ok.top);
      below = λ k hk. ground arith;
      unused = λ k hk. ok.unused k hk;
      differ = ok.differ;
      fresh = λ i hi. ok.fresh i (omega arith);
    },
  )
]

-- `alloc_cont` panics exactly if all records of the pool were handed out and none came back.
alloc_cont-eq-none :
    (st : Conts)
    → IsPool st
    → (alloc_cont st ≡ none) ↔ ((st.cont_free_top ≡ 0) × (st.cont_next ≡ max_continuations))
unfolding alloc_cont
alloc_cont-eq-none st ok = (
  λ e. elim (Bool-cases (ltb 0 st.cont_free_top)) [
    | inl l ↦ absurd (cc (popped st (ltb→lt 0 st.cont_free_top l) ok))
    | inr l ↦ elim (Bool-cases (ltb st.cont_next max_continuations)) [
      | inl r ↦ absurd (cc (grown st (ground arith) (ltb→lt st.cont_next max_continuations r) ok))
      | inr r ↦ (ground arith, ground (arith, ok.next))
    ]
  ],
  λ (e, f). rw (e, f) refl,
)

-- A record that is given back is the next that `alloc_cont` hands out, and the free list is then
-- as long as before.
pub alloc_cont-free_cont :
    (st : Conts) (i : ℕ)
    → IsPool st
    → IsLive st i
    → (freed st' : Conts) × (free_cont st i ≡ some freed)
      × (alloc_cont freed ≡ some (i, st'))
      × (st'.cont_free_top ≡ st.cont_free_top)
      × (st'.cont_next ≡ st.cont_next)
unfolding alloc_cont
alloc_cont-free_cont st i ok live =
    let (freed, e, f) = free_cont-Freed st i (omega (arith, room i ok live, ok.next)) in
    (
      freed,
      record freed { cont_free_top = freed.cont_free_top - 1 },
      e,
      ground (arith, f.top, f.buf, f.states i),
      omega (arith, f.top),
      f.next,
    )

pub HasRoom-alloc_cont :
    (st : Conts) (r : ℕ × Conts) → IsPool st → alloc_cont st ≡ some r → HasRoom st
HasRoom-alloc_cont st r ok e = elim (Bool-cases (ltb 0 st.cont_free_top)) [
  | inl a ↦ inl (ltb→lt 0 st.cont_free_top a)
  | inr a ↦ elim (Bool-cases (ltb st.cont_next max_continuations)) [
    | inl b ↦ inr (ltb→lt st.cont_next max_continuations b)
    | inr b ↦ absurd (cc ((alloc_cont-eq-none st ok).1 (ground arith, ground (arith, ok.next))))
  ]
]
