-- ===== src/EventFd/Tests.antt =====
-- Event descriptors at concrete inputs.
use hermit_kernel.Base.{◌+◌, ◌-◌, ◌≡◌, ◌<◌, true, false, [], ◌∷◌, arith, List}
use hermit_kernel.Base.Lists.{take}
use hermit_kernel.EventFd.{ready, EventFlags, EventState, max_u64, word_len, read, write}
use hermit_kernel.EventFd.Counter.{Op, run, reads, writes, run_conserves}
use hermit_kernel.EventFd.Wakers.{read_wakes_no_writer}

abbrev semaphore : EventFlags
semaphore = record { semaphore = true; nonblock = false }

abbrev normal : EventFlags
normal = record { semaphore = false; nonblock = false }

-- Two readers wait.
abbrev starved : EventState
starved = record { counter = 0; read_queue = 7 ∷ 8 ∷ []; write_queue = [] }

-- One writer waits.
abbrev full : EventState
full = record { counter = max_u64 - 1; read_queue = []; write_queue = 9 ∷ [] }

abbrev ops : List Op
ops = writes 8 5 1 ∷ reads 8 2 ∷ reads 8 3 ∷ writes 8 max_u64 4 ∷ []

run_conserves_example :
    ((run normal ops starved).last.counter < max_u64)
    × ((run normal ops starved).last.counter + (run normal ops starved).total_read
        ≡ starved.counter + (run normal ops starved).total_written)
run_conserves_example = run_conserves normal ops starved (omega arith)

read_wakes_no_writer_example :
    let flags : EventFlags = record { semaphore = false; nonblock = false } in
    let (r, woken, st') = read flags 8 3 full in
    (r ≡ ready (word_len, full.counter))
    × (woken ≡ take 1 full.read_queue)
    × (st'.write_queue ≡ full.write_queue)
    × ((write flags 8 2 3 st').0 ≡ ready word_len)
read_wakes_no_writer_example =
    read_wakes_no_writer false 8 2 3 full (omega arith) (omega arith) (omega arith)
