-- ===== src/Examples.antt =====
-- Runs of the theorems at concrete inputs, by part of the program.
pub mod Order
pub mod Core
pub mod Approvals
pub mod Adapters
pub mod Runs
pub mod Engine
pub mod Plans
pub mod Writes
pub mod Failure
pub mod Patches
