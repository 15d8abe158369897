-- ===== src/EventFd/Counter.antt =====
-- The counter: it never wraps, and it is what was written and not yet read.
use hermit_kernel.Base.{ℕ, ◌+◌, ◌≤◌, ◌<◌, ◌≡◌, refl, List, [], ◌∷◌, arith}
use hermit_kernel.EventFd.{
  Poll, ready, failed, pending, EventFlags, EventState, max_u64, read, write,
}

-- One poll of a read or a write, with the buffer's length, the word to write and the waker.
pub data Op : Type 0 where
  reads : ℕ → ℕ → Op
  writes : ℕ → ℕ → ℕ → Op

abbrev pub value_of : Poll (ℕ × ℕ) → ℕ
value_of (ready (len, v)) = v
value_of (failed e) = 0
value_of pending = 0

abbrev pub amount_of : ℕ → Poll ℕ → ℕ
amount_of c (ready len) = c
amount_of c (failed e) = 0
amount_of c pending = 0

-- The totals that were read and written, and the last state.
pub record Tally : Type 0 where
  pub total_read : ℕ
  pub total_written : ℕ
  pub last : EventState

pub run : EventFlags → List Op → EventState → Tally
run flags [] st = record { total_read = 0; total_written = 0; last = st }
run flags (reads len waker ∷ ops) st =
    let (r, woken, st') = read flags len waker st in
    let t = run flags ops st' in record t { total_read = value_of r + t.total_read }
run flags (writes len c waker ∷ ops) st =
    let (r, woken, st') = write flags len c waker st in
    let t = run flags ops st' in record t { total_written = amount_of c r + t.total_written }

read_step :
    (flags : EventFlags) (len waker : ℕ) (st : EventState)
    → let (r, woken, st') = read flags len waker st in
      (st'.counter + value_of r ≡ st.counter) × (st'.counter ≤ st.counter)
unfolding read
read_step flags len waker st = ground arith

write_step :
    (flags : EventFlags) (len c waker : ℕ) (st : EventState)
    → st.counter < max_u64
    → let (r, woken, st') = write flags len c waker st in
      (st'.counter ≡ st.counter + amount_of c r) × (st'.counter < max_u64)
unfolding write
write_step flags len c waker st h = ground arith

-- Over any sequence of reads and writes, blocked and refused ones included, the counter stays below
-- the greatest 64-bit word, and what was read and what is left make up what was there and what was
-- written.
pub run_conserves :
    (flags : EventFlags) (ops : List Op) (st : EventState)
    → st.counter < max_u64
    → let t = run flags ops st in
      (t.last.counter < max_u64) × (t.last.counter + t.total_read ≡ st.counter + t.total_written)
unfolding run
run_conserves flags [] st h = (h, refl)
run_conserves flags (reads len waker ∷ ops) st h =
    let step = read_step flags len waker st in
    let rest = run_conserves flags ops (read flags len waker st).2 (omega arith) in omega arith
run_conserves flags (writes len c waker ∷ ops) st h =
    let step = write_step flags len c waker st h in
    let rest = run_conserves flags ops (write flags len c waker st).2 (omega arith) in omega arith
