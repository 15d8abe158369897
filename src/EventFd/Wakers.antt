-- ===== src/EventFd/Wakers.antt =====
-- Who is woken by a read or a write, and who waits.
use hermit_kernel.Base.{
  ℕ, ◌+◌, ◌-◌, ◌≤◌, ◌<◌, ◌≡◌, refl, ◌⊎◌, inl, inr, ◌≢◌, min, Bool, true, false, [], ◌∷◌, ◌++◌,
  arith,
}
use hermit_kernel.Base.Tests.{ltb, if◌then◌else◌, Bool-cases, lt→ltb, not-ltb}
use hermit_kernel.Base.Lists.{length, take, take-append-drop, length-take}
use mathlib.Core.List.{append-nil}
use hermit_kernel.EventFd.{
  ready, pending, EventFlags, EventState, Polled, PollEvent, max_u64, word_len, read, write, poll,
}

-- A write that finds room in normal mode wakes every reader that waits; in semaphore mode it wakes
-- as many as it adds to the counter, the longest waiting first, and the others keep their order.
pub write_wakes :
    (flags : EventFlags) (len c waker : ℕ) (st : EventState)
    → word_len ≤ len
    → st.counter + c < max_u64
    → let (r, woken, st') = write flags len c waker st in
      (r ≡ ready word_len)
      × (woken ++ st'.read_queue ≡ st.read_queue)
      × (length woken
          ≡ (if flags.semaphore then min c (length st.read_queue) else length st.read_queue))
      × (st'.write_queue ≡ st.write_queue)
unfolding write
write_wakes flags len c waker st l room = elim (Bool-cases flags.semaphore) [
  | inl e ↦
      rw (not-ltb len word_len l, lt→ltb c (max_u64 - st.counter) (omega arith), e)
        (refl, take-append-drop c st.read_queue, length-take c st.read_queue, refl)
  | inr e ↦
      rw (not-ltb len word_len l, lt→ltb c (max_u64 - st.counter) (omega arith), e)
        (refl, append-nil st.read_queue, refl, refl)
]

-- What a read that has to wait leaves behind.
abbrev pub ReadWaits : ℕ → EventState → Polled (ℕ × ℕ) → Type 0
ReadWaits waker st (r, woken, st') =
    ((st.counter ≡ 0)
      × (woken ≡ [])
      × (st' ≡ record st { read_queue = st.read_queue ++ waker ∷ [] }))
    ⊎ (r ≢ pending)

-- What a write of `c` that has to wait leaves behind.
abbrev pub WriteWaits : ℕ → ℕ → EventState → Polled ℕ → Type 0
WriteWaits c waker st (r, woken, st') =
    ((max_u64 ≤ st.counter + c)
      × (woken ≡ [])
      × (st' ≡ record st { write_queue = st.write_queue ++ waker ∷ [] }))
    ⊎ (r ≢ pending)

read_waits :
    (flags : EventFlags) (len waker : ℕ) (st : EventState)
    → ReadWaits waker st (read flags len waker st)
unfolding read
read_waits flags len waker st = elim (Bool-cases (ltb len word_len)) [
  | inl e ↦ inr (rw e (λ h. cc))
  | inr e ↦ elim (Bool-cases (ltb 0 st.counter)) [
    | inl f ↦ inr (rw (e, f) (ground arith))
    | inr f ↦ elim (Bool-cases flags.semaphore) [
      | inl g ↦ rw (e, f, g) (inl (ground arith, refl, refl))
      | inr g ↦ elim (Bool-cases flags.nonblock) [
        | inl k ↦ rw (e, f, g, k) (inr (λ h. cc))
        | inr k ↦ rw (e, f, g, k) (inl (ground arith, refl, refl))
      ]
    ]
  ]
]

write_waits :
    (flags : EventFlags) (len c waker : ℕ) (st : EventState)
    → WriteWaits c waker st (write flags len c waker st)
unfolding write
write_waits flags len c waker st = elim (Bool-cases (ltb len word_len)) [
  | inl e ↦ inr (rw e (λ h. cc))
  | inr e ↦ elim (Bool-cases (ltb c (max_u64 - st.counter))) [
    | inl f ↦ inr (rw (e, f) (λ h. cc))
    | inr f ↦ elim (Bool-cases flags.nonblock) [
      | inl k ↦ rw (e, f, k) (inr (λ h. cc))
      | inr k ↦ rw (e, f, k) (inl (ground arith, refl, refl))
    ]
  ]
]

-- A read that has to wait found the counter at 0 and leaves it so, and its waker is the last that
-- waits; a write that has to wait found no room, changes neither the counter nor the readers, and
-- its waker is the last that waits. Neither wakes anyone.
pub waits_in_turn :
    (flags : EventFlags) (len c waker : ℕ) (st : EventState)
    → ReadWaits waker st (read flags len waker st)
      × WriteWaits c waker st (write flags len c waker st)
waits_in_turn flags len c waker st =
    (read_waits flags len waker st, write_waits flags len c waker st)

-- In normal mode a read that empties a full counter wakes no writer: those that wait for room stay
-- in the queue, though any of them could now write.
pub read_wakes_no_writer :
    (nonblock : Bool) (len c waker : ℕ) (st : EventState)
    → word_len ≤ len
    → 0 < st.counter
    → c < max_u64
    → let flags : EventFlags = record { semaphore = false; nonblock = nonblock } in
      let (r, woken, st') = read flags len waker st in
      (r ≡ ready (word_len, st.counter))
      × (woken ≡ take 1 st.read_queue)
      × (st'.write_queue ≡ st.write_queue)
      × ((write flags len c waker st').0 ≡ ready word_len)
unfolding read write
read_wakes_no_writer nonblock len c waker st l h room = ground arith

-- A semaphore read takes one from the counter and wakes the writer that waits longest. With the
-- counter at 0 it waits, also where the descriptor is not to block.
pub semaphore_read :
    (nonblock : Bool) (len waker : ℕ) (st : EventState)
    → word_len ≤ len
    → let (r, woken, st') = read (record { semaphore = true; nonblock = nonblock }) len waker st in
      ((0 < st.counter)
        × (r ≡ ready (word_len, 1))
        × (woken ++ st'.write_queue ≡ st.write_queue)
        × (st'.counter + 1 ≡ st.counter))
      ⊎ ((st.counter ≡ 0) × (r ≡ pending) × (st'.read_queue ≡ st.read_queue ++ waker ∷ []))
unfolding read
semaphore_read nonblock len waker st l = elim (Bool-cases (ltb 0 st.counter)) [
  | inl e ↦ inl (
    ground arith,
    rw (not-ltb len word_len l, e),
    rw (not-ltb len word_len l, e) (take-append-drop 1 st.write_queue),
    rw (not-ltb len word_len l, e) (ground arith),
  )
  | inr e ↦ inr (ground arith, rw (not-ltb len word_len l, e), rw (not-ltb len word_len l, e))
]

-- A poll for the events of the priority band alone does not wait at a counter of 0: it returns at
-- once, without an event and without a waker in the queue.
pub poll_rdband_returns :
    (waker : ℕ) (st : EventState)
    → st.counter ≡ 0
    → let event : PollEvent = record {
      pollin = false;
      pollrdnorm = false;
      pollrdband = true;
      pollout = false;
      pollwrnorm = false;
      pollwrband = false;
    } in
      poll event waker st ≡ (ready (record event { pollrdband = false }), [], st)
unfolding poll
poll_rdband_returns waker st h = rw h
