-- ===== src/Kernel.antt =====
-- The kernel of os_kernel/src as a machine: the scheduler, mutexes, condition variables and the sleep
-- timer share one state, and a thread that blocks leaves the rest of its call as frames.
pub mod Io
pub mod State
pub mod Scheduler
pub mod Sync
pub mod Pipes
pub mod Machine
pub mod SystemCalls
pub mod Interrupts
pub mod Invariant
pub mod AllCalls
pub mod Ready
pub mod Admitted
pub mod Destroyed
pub mod AllServes
pub mod Interrupted
pub mod Safety
pub mod Boot
pub mod Reach
pub mod Fifo
pub mod Idle
pub mod Order
pub mod Copies
pub mod Unlocked
pub mod Reading
pub mod Writing
pub mod Waking
pub mod Turns
pub mod Locking
pub mod Unlocking
pub mod Sleeping
pub mod Context
