-- ===== src/Tests.antt =====
-- Runs of the code on concrete states, and the theorems at concrete inputs.
pub mod Example
pub mod KernelRuns
pub mod ContainerRuns
pub mod BootRun
pub mod FirmwareRuns
pub mod CartridgeRuns
pub mod ListRuns
pub mod TextRuns
pub mod PipeRun
pub mod SwitchRun
