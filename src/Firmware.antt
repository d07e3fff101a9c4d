-- ===== src/Firmware.antt =====
-- The firmware: its start, its writes to memory, the machine's clock and the handlers of the timer.
pub mod Clock
pub mod Memory
pub mod Start
pub mod Handlers
pub mod Ticks
