-- ===== src/Continuation/Drain/Resolve.antt =====
-- Which continuation the drain finds: src/arch/aarch64/kernel/continuations.rs,
-- drain_resolve_ready and has_pending_cont.
use hermit_kernel.Base.{
  ℕ, zero, suc, ◌+◌, ◌≤◌, ◌<◌, ◌≡◌, ◌≢◌, inl, inr, refl, ◌↔◌, Bool, true, false, Option, none, some,
  arith, ℕ_discrete,
}
use hermit_kernel.Base.Tests.{Bool-cases, Option-cases}
use hermit_kernel.Continuation.{Conts, Lifecycle, max_continuations, state_of}
use hermit_kernel.Continuation.Drain.{
  is_ready, is_resumable, scan_pool, resolve_from, drain_resolve_ready, has_pending_cont,
}

module _ (test : Lifecycle → Bool) (st : Conts) where
  pub scan_pool-eq-some :
      (n i k : ℕ)
      → scan_pool test st n i ≡ some k
      → (i ≤ k) × (k < n + i) × (test (state_of st k) ≡ true)
  unfolding scan_pool
  scan_pool-eq-some zero i k e = cc
  scan_pool-eq-some (suc n) i k e = ground (arith, scan_pool-eq-some n (suc i) k)

  pub scan_pool_first :
      (n i k j : ℕ) → scan_pool test st n i ≡ some k → i ≤ j → j < k → test (state_of st j) ≡ false
  unfolding scan_pool
  scan_pool_first zero i k j e l h = cc
  scan_pool_first (suc n) i k j e l h = elim (ℕ_discrete i j) [
    | yes q ↦ ground arith
    | no q ↦ ground (arith, scan_pool_first n (suc i) k j)
  ]

  pub scan_pool-eq-none :
      (n i j : ℕ) → scan_pool test st n i ≡ none → i ≤ j → j < n + i → test (state_of st j) ≡ false
  unfolding scan_pool
  scan_pool-eq-none zero i j e l h = absurd (omega arith)
  scan_pool-eq-none (suc n) i j e l h = elim (ℕ_discrete i j) [
    | yes q ↦ ground arith
    | no q ↦ ground (arith, scan_pool-eq-none n (suc i) j)
  ]

  pub scan_pool_finds :
      (n i j : ℕ)
      → i ≤ j
      → j < n + i
      → test (state_of st j) ≡ true
      → (k : ℕ) × (scan_pool test st n i ≡ some k)
  scan_pool_finds n i j l h t = elim (Option-cases (scan_pool test st n i)) [
    | inl e ↦ absurd (cc (scan_pool-eq-none n i j e l h))
    | inr found ↦ found
  ]

-- The pending continuation, if it can be resumed, or else the first of the pool that can.
pub data Chosen (st : Conts) (i : ℕ) : Type 0 where
  by_pending : st.cont_pending ≡ some i → Chosen st i
  by_scan :
      ((j : ℕ) → st.cont_pending ≡ some j → is_resumable (state_of st j) ≡ false)
      → ((j : ℕ) → j < i → is_resumable (state_of st j) ≡ false)
      → i < max_continuations
      → Chosen st i

scanned :
    (st : Conts) (i : ℕ)
    → ((j : ℕ) → st.cont_pending ≡ some j → is_resumable (state_of st j) ≡ false)
    → scan_pool is_resumable st max_continuations 0 ≡ some i
    → (is_resumable (state_of st i) ≡ true) × Chosen st i
scanned st i stale e =
    let (_, l, t) = scan_pool-eq-some is_resumable st max_continuations 0 i e in
    (
      t,
      by_scan stale
          (λ j h. scan_pool_first is_resumable st max_continuations 0 i j e (omega arith) h)
          (omega arith),
    )

resolve_from_lem :
    (st : Conts) (o : Option ℕ) (i : ℕ)
    → st.cont_pending ≡ o
    → resolve_from st o ≡ some i
    → (is_resumable (state_of st i) ≡ true) × Chosen st i
unfolding resolve_from
resolve_from_lem st none i p e = scanned st i (λ j q. cc) e
resolve_from_lem st (some k) i p e = elim (Bool-cases (is_resumable (state_of st k))) [
  | inl t ↦ (ground arith, by_pending (ground arith))
  | inr t ↦ scanned st i (λ j q. ground arith) (ground arith)
]

-- What the drain finds can be resumed: it is the pending continuation, or the first of the pool
-- that can be resumed while the pending one cannot.
pub drain_resolve_ready_lem :
    (st : Conts) (i : ℕ)
    → drain_resolve_ready st ≡ some i
    → (is_resumable (state_of st i) ≡ true) × Chosen st i
unfolding drain_resolve_ready
drain_resolve_ready_lem st i e = resolve_from_lem st st.cont_pending i refl e

resolve_from_finds :
    (st : Conts) (o : Option ℕ) (j : ℕ)
    → j < max_continuations
    → is_resumable (state_of st j) ≡ true
    → resolve_from st o ≢ none
unfolding resolve_from
resolve_from_finds st none j l t e =
    cc (scan_pool-eq-none is_resumable st max_continuations 0 j e (omega arith) (omega arith))
resolve_from_finds st (some k) j l t e = elim (Bool-cases (is_resumable (state_of st k))) [
  | inl r ↦ cc
  | inr r ↦ cc (
      scan_pool-eq-none is_resumable st max_continuations 0 j (ground arith) (omega arith)
        (omega arith))
]

-- The drain finds a continuation whenever one of the pool is ready or was preempted, whatever the
-- pending pointer is. The one that it finds is itself ready or preempted: it is the pending one if
-- that can be resumed, or else the first such of the pool.
pub drain_resolve_ready_finds :
    (st : Conts) (j : ℕ)
    → j < max_continuations
    → is_resumable (state_of st j) ≡ true
    → (i : ℕ) × (drain_resolve_ready st ≡ some i)
      × (is_resumable (state_of st i) ≡ true)
      × Chosen st i
unfolding drain_resolve_ready
drain_resolve_ready_finds st j l t = elim (Option-cases (drain_resolve_ready st)) [
  | inl e ↦ absurd (resolve_from_finds st st.cont_pending j l t e)
  | inr (i, e) ↦ let (t, c) = drain_resolve_ready_lem st i e in (i, e, t, c)
]

-- `has_pending_cont` is true exactly if some continuation of the pool is ready, one that was
-- preempted not counted.
has_pending_cont_lem :
    (st : Conts)
    → (has_pending_cont st ≡ true)
      ↔ ((j : ℕ) × (j < max_continuations) × (is_ready (state_of st j) ≡ true))
unfolding has_pending_cont
has_pending_cont_lem st = (
  λ e. elim (Option-cases (scan_pool is_ready st max_continuations 0)) [
    | inl none_found ↦ cc
    | inr (k, found) ↦
        let (_, l, t) = scan_pool-eq-some is_ready st max_continuations 0 k found in
        (k, omega arith, t)
  ],
  λ (j, l, t).
      let (k, found) =
        scan_pool_finds is_ready st max_continuations 0 j (omega arith) (omega arith) t in
      rw found refl,
)
