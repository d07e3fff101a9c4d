-- ===== src/Kernel/Invariant.antt =====
-- What every step of the kernel keeps: the preemption counts are balanced by what the threads have
-- still to do, and no thread is lost or in two places.
pub mod Debt
pub mod Census
pub mod Sound
pub mod Preempt
pub mod Switch
pub mod Turn
pub mod Leave
pub mod Locks
pub mod Notify
pub mod Block
pub mod Behind
pub mod Transfer
pub mod Resume
pub mod Calls
pub mod Create
pub mod Tick
