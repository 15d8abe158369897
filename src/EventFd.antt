-- ===== src/EventFd.antt =====
-- src/fd/eventfd.rs: a counter with a queue of wakers for readers and one for writers. Each
-- function is one poll of the operation's future that finds the lock free; it returns the wakers
-- that it wakes. A waker is a number, and a buffer is given by its length and the word that it
-- holds.
pub mod Counter
pub mod Wakers
mod Tests
use hermit_kernel.Base.{ℕ, ◌+◌, ◌-◌, ◌^◌, Bool, true, false, ◌&&◌, ◌||◌, not, List, [], ◌∷◌, ◌++◌}
use hermit_kernel.Base.Tests.{ltb, if◌then◌else◌}
use hermit_kernel.Base.Lists.{take, drop}
use hermit_kernel.Errno.{Errno, inval, again}

pub data Poll {ℓ} (A : Type ℓ) : Type ℓ where
  ready : A → Poll A
  failed : Errno → Poll A
  pending : Poll A

-- `EFD_SEMAPHORE` and `EFD_NONBLOCK`
pub record EventFlags : Type 0 where
  pub semaphore : Bool
  pub nonblock : Bool

pub record EventState : Type 0 where
  pub counter : ℕ
  pub read_queue : List ℕ
  pub write_queue : List ℕ

abbrev pub max_u64 : ℕ
max_u64 = 2 ^ 64 - 1

abbrev pub word_len : ℕ
word_len = 8

pub new : ℕ → EventState
new counter = record { counter = counter; read_queue = []; write_queue = [] }

-- What a poll returns, the wakers that it wakes, and the new state.
abbrev pub Polled : Type 0 → Type 0
Polled A = Poll A × List ℕ × EventState

read_semaphore : ℕ → EventState → Polled (ℕ × ℕ)
read_semaphore waker st =
    if ltb 0 st.counter
    then (
      ready (word_len, 1),
      take 1 st.write_queue,
      record st { counter = st.counter - 1; write_queue = drop 1 st.write_queue },
    )
    else (pending, [], record st { read_queue = st.read_queue ++ waker ∷ [] })

read_counter : Bool → ℕ → EventState → Polled (ℕ × ℕ)
read_counter nonblock waker st =
    if ltb 0 st.counter
    then (
      ready (word_len, st.counter),
      take 1 st.read_queue,
      record st { counter = 0; read_queue = drop 1 st.read_queue },
    )
    else if nonblock
    then (failed again, [], st)
    else (pending, [], record st { read_queue = st.read_queue ++ waker ∷ [] })

-- The result of a read is the length and the word that is put into the buffer.
pub read : EventFlags → ℕ → ℕ → EventState → Polled (ℕ × ℕ)
unfolding read_semaphore read_counter
read flags buf_len waker st =
    if ltb buf_len word_len
    then (failed inval, [], st)
    else if flags.semaphore
    then read_semaphore waker st
    else read_counter flags.nonblock waker st

-- The readers that a write of `c` wakes: as many as `c` for a semaphore, and otherwise all.
abbrev pub woken_by : Bool → ℕ → List ℕ → List ℕ
woken_by semaphore c queue = if semaphore then take c queue else queue

abbrev pub left_by : Bool → ℕ → List ℕ → List ℕ
left_by semaphore c queue = if semaphore then drop c queue else []

-- `c` is the word that the buffer holds.
pub write : EventFlags → ℕ → ℕ → ℕ → EventState → Polled ℕ
write flags buf_len c waker st =
    if ltb buf_len word_len
    then (failed inval, [], st)
    else if ltb c (max_u64 - st.counter)
    then (
      ready word_len,
      woken_by flags.semaphore c st.read_queue,
      record st { counter = st.counter + c; read_queue = left_by flags.semaphore c st.read_queue },
    )
    else if flags.nonblock
    then (failed again, [], st)
    else (pending, [], record st { write_queue = st.write_queue ++ waker ∷ [] })

-- The events that a poll can ask for here.
pub record PollEvent : Type 0 where
  pub pollin : Bool
  pub pollrdnorm : Bool
  pub pollrdband : Bool
  pub pollout : Bool
  pub pollwrnorm : Bool
  pub pollwrband : Bool

abbrev pub available : EventState → PollEvent → PollEvent
available st event = record {
  pollin = event.pollin && readable;
  pollrdnorm = event.pollrdnorm && readable;
  pollrdband = event.pollrdband && readable;
  pollout = event.pollout && writable;
  pollwrnorm = event.pollwrnorm && writable;
  pollwrband = event.pollwrband && writable;
}
  where
    readable : Bool
    readable = ltb 0 st.counter

    writable : Bool
    writable = ltb st.counter (max_u64 - 1)

abbrev pub is_empty : PollEvent → Bool
is_empty e =
    not (e.pollin || e.pollrdnorm || e.pollrdband || e.pollout || e.pollwrnorm || e.pollwrband)

pub poll : PollEvent → ℕ → EventState → Polled PollEvent
poll event waker st =
    let ret = available st event in
    if not (is_empty ret)
    then (ready ret, [], st)
    else if event.pollin || event.pollrdnorm
    then (pending, [], record st { read_queue = st.read_queue ++ waker ∷ [] })
    else if event.pollout || event.pollwrnorm || event.pollwrband
    then (pending, [], record st { write_queue = st.write_queue ++ waker ∷ [] })
    else (ready ret, [], st)
