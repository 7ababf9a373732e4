-- ===== src/Tests.antt =====
-- Runs of the models at concrete inputs, and each theorem at an input that meets its hypotheses.
pub mod Arithmetic
pub mod Conditions
pub mod Helpers
pub mod Heaps
pub mod Syntax
pub mod Blocks
pub mod Machine
pub mod Paths
pub mod Verify
