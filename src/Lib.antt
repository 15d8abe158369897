-- ===== src/Lib.antt =====
-- Verification library of Hermit, a unikernel in Rust: the parts of the kernel crate that compute
-- without the hardware. Code is named by its path from the repository's root.
--
-- Parts, their files here and the code that they translate:
-- - Base: Boolean tests, lists with native indices, binary digits of a word, integers. A panic of
--   the code is the result `none`, except for files, directories and descriptors, whose results
--   have a constructor for it.
-- - Task: src/scheduler/task/mod.rs. Task/Types has the data of a task, Task/Levels the queues by
--   priority with their bitmap, Task/ReadyQueue `PriorityTaskQueue`, and Task/HandleQueue
--   `TaskHandlePriorityQueue`, whose bitmaps lie in a pool that all queues of the kernel share: the
--   pool is passed along. A reference to a task is a number, and the tasks are a store.
-- - Blocked: `BlockedTaskQueue` of src/scheduler/task/mod.rs. Its operations change the tasks and
--   set timers, so that both are part of its state.
-- - Semaphore: src/synch/semaphore.rs, each function as what is done under the lock; a turn of the
--   loop of `acquire` is one function.
-- - RecursiveMutex: src/synch/recmutex.rs, in the same way.
-- - Timers: src/scheduler/timer_interrupts.rs, with the time that the hardware timer is set for as
--   a part of the state.
-- - Supervisor: src/scheduler/supervisor.rs. `RestartPolicy::None` is `never` here.
-- - Errno: src/errno.rs, for a target with an error number for each thread.
-- - EventFd: src/fd/eventfd.rs. One function is one poll of a future; a sequence of them is a list.
-- - Futex: src/synch/futex.rs, the start of a wait and the turns of its loop as functions, and the
--   loop of a wake on fuel, with the scheduler that it passes the handles to as part of the state.
-- - SlotPool: src/arch/aarch64/kernel/slot_pool.rs with the constants of src/config.rs, and the
--   memory that the frames lie in as a part of the state.
-- - Scheduler: `ensure_slot` of src/scheduler/mod.rs, by which a task that is dispatched gets a slot,
--   and `custom_wakeup`, for a kernel without further cores, by which a blocked task is made ready.
-- - ObjectMap: the table of file descriptors of a task in src/scheduler/mod.rs.
-- - Continuation: src/arch/aarch64/kernel/continuations.rs. Continuation has the statics and the
--   records of the pool; Pool allocates and frees them and arms quanta, Switch lays out stacks,
--   builds the first frame, spawns and switches contexts, Parking parks, tears down and wakes,
--   Quantum has the escapes, Drain resumes, and FutexTable is the futex table of continuations.
--   A pointer to a record is its index. Saved contexts lie in a memory of whole frames by address,
--   and the switch saves each register in the slot that its assembly stores it in, which is not its
--   own for x9 to x16; the cycle counter is a sequence of readings. Lifecycles has the step relation.
-- - Directory: the directories of src/fs/mem.rs, as a tree of nodes with the traversals of paths.
-- - File: the open files of src/fs/mem.rs, the attributes of src/fs/mod.rs, times of src/time.rs.
--
-- How they interact: blocking a task puts it into the blocked queue and sets a timer; the timer
-- interrupt, or a wake by a handle that a handle queue gave back, moves it to the ready queue, from
-- which the scheduler takes the next task. Blocked uses the operations of Timers and Task for this.
-- Scheduler takes slots from SlotPool, and if there is none lets Blocked choose the task to evict.
-- Semaphore, RecursiveMutex and Futex are clients of the handle queue, through its refinement
-- theorems; a wake of Futex also runs Scheduler's `custom_wakeup`, which uses that of Blocked.
--
-- Continuations are resumed by the idle loop of their core, and take no part in the ready queue.
--
-- Bounds: numbers are natural numbers; where the code computes with words and can wrap or saturate,
-- this is written out. There are 31 priorities, 256 bitmaps, 3 slots on each of 4 cores, 128
-- continuations and as many waiters in their futex table. Every
-- loop is a recursion on a list or on a number that the code fixes, but two, which are on fuel: for
-- the loop of a futex wake more fuel than tasks wait at the address is enough, since each turn takes
-- one out, and for the search for a file descriptor more fuel than the least free one. The current
-- time, the number of the core and the number of a new file are arguments. Locks are left out, since
-- an operation holds its lock from its first access to the state to its last; a poll of an event
-- descriptor is one that finds the lock free.
--
-- Not modelled: the rest of the scheduler and the switch between tasks, and with it the loop in which
-- a task that waits for a semaphore or a mutex goes on; the reading of an open directory, and the
-- working directory; the harness that tests continuations at boot, and overlaps of saved frames
-- other than those of equal address; memory management, drivers, network and architecture code,
-- which stand on external crates or on registers; that memory runs out.
pub mod Base
pub mod Blocked
pub mod Continuation
pub mod Directory
pub mod Errno
pub mod EventFd
pub mod File
pub mod Futex
pub mod ObjectMap
pub mod RecursiveMutex
pub mod Scheduler
pub mod Semaphore
pub mod SlotPool
pub mod Supervisor
pub mod Task
pub mod Timers
